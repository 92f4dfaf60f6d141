-- ===== src/Plan/Decision.antt =====
-- The decisions of the head of nauti-fabric/src/plan.rs: validation before everything, the asking
-- node's own slots before a remote host, and a refusal only when there is no place at all.
use Prim.Native.Nat.{Ordering}
use nauti_virtualizer.Prelude.{
  String, true, false, ◌≡◌, refl, sym, ap, subst, ◌∙◌, ◌↔◌, inl, inr, Option, none, some, List, [],
  ◌∷◌, map, keep, arith, Option-cases,
}
use nauti_virtualizer.Dict.{get}
use nauti_virtualizer.Plan.Number.{Float, order, fleet_score, pick, fold_max, max_by}
use nauti_virtualizer.Plan.Text.{is_blank}
use nauti_virtualizer.Plan.View.{
  SlotView, HostView, FleetView, PlanFragment, PlanRequest, RoleCatalogue, serves, best_free,
  best_on, best_slot, knows,
}
use nauti_virtualizer.Plan.Planner.{
  Result, ok, err, escalate_nowhere, scored, best_slot_scored, fragment_for, monolithic_plan,
  federated_plan, on_host,
}
use nauti_virtualizer.Plan.Head.{
  validate_ask, after, or_escalate, local_first, head_plan, escalate_constraint,
}
use nauti_virtualizer.Plan.Best.{CanTake, best_slot_scored_sound, best_slot_scored-none}
use nauti_virtualizer.Plan.Fleet.{Remote, monolithic_plan_iff}

-- An ask is valid exactly when both fields hold something other than white space and the role is
-- in the catalogue.
pub validate_ask_iff :
    (req : PlanRequest) (roles : RoleCatalogue)
    → (validate_ask req roles ≡ ok tt) ↔ (
        (is_blank req.node_id ≡ false)
        × (is_blank req.role ≡ false)
        × (knows roles req.role ≡ true))
unfolding validate_ask
validate_ask_iff req roles = ground arith

pick-map :
    {A B : Type 0} (f : A → B) (o o' : Ordering) (b x : A)
    → o' ≡ o
    → pick o' (f b) (f x) ≡ f (pick o b x)
unfolding pick
pick-map f Ordering.lt o' b x e = ap (λ w. pick w (f b) (f x)) e
pick-map f Ordering.eq o' b x e = ap (λ w. pick w (f b) (f x)) e
pick-map f Ordering.gt o' b x e = ap (λ w. pick w (f b) (f x)) e

fold_max-map :
    {A B : Type 0} (cmp : A → A → Ordering) (cmp' : B → B → Ordering) (f : A → B)
    → ((a b : A) → cmp' (f a) (f b) ≡ cmp a b)
    → (b : A) (xs : List A) → fold_max cmp' (f b) (map f xs) ≡ f (fold_max cmp b xs)
unfolding fold_max
fold_max-map cmp cmp' f same b [] = refl
fold_max-map cmp cmp' f same b (x ∷ xs) =
    ap (λ c. fold_max cmp' c (map f xs)) (pick-map f (cmp b x) (cmp' (f b) (f x)) b x (same b x))
    ∙ fold_max-map cmp cmp' f same (pick (cmp b x) b x) xs

module _ (n : Float) (host : HostView n) (role : String) where
  -- `Option::map` with the second component
  abbrev pub slot_of : Option (n.F × SlotView n) → Option (SlotView n)
  slot_of none = none
  slot_of (some found) = some (found.1)

  max_by-scored :
      (xs : List (SlotView n))
      → slot_of (max_by (λ a b. order n (a.0) (b.0)) (map (scored n none) xs))
        ≡ max_by (λ a b. order n a.free_mb b.free_mb) xs
  unfolding max_by scored fleet_score
  max_by-scored [] = refl
  max_by-scored (x ∷ xs) =
      ap {A = n.F × SlotView n} (λ q. some (q.1))
        (fold_max-map (λ a b. order n a.free_mb b.free_mb) (λ a b. order n (a.0) (b.0))
          (λ s. (s.free_mb, s)) (λ a b. refl) x xs)

  -- The head's own choice of a local slot (`best_slot`, by headroom) and the federated planner's
  -- (`best_slot_scored` without a round trip) are the same slot of the host, or no slot for both.
  pub best_free-scored : best_free n host role ≡ slot_of (best_slot_scored n host role none)
  unfolding best_free best_slot_scored
  best_free-scored = ground (arith, max_by-scored (keep (λ s. serves n s role) host.slots))

  slot_of-some :
      (o : Option (n.F × SlotView n)) (t : SlotView n)
      → slot_of o ≡ some t
      → (score : n.F) × (o ≡ some (score, t))
  slot_of-some none t h = ground (arith, h)
  slot_of-some (some found) t h = (found.0, ground (arith, h))

  slot_of-none : (o : Option (n.F × SlotView n)) → slot_of o ≡ none → o ≡ none
  slot_of-none none h = refl
  slot_of-none (some found) h = ground (arith, h)

  best_free-CanTake : (t : SlotView n) → best_free n host role ≡ some t → CanTake n host role t
  best_free-CanTake t h =
      let (score, e) =
        slot_of-some (best_slot_scored n host role none) t (sym best_free-scored ∙ h) in
      (best_slot_scored_sound n host role none score t e).0

  best_free-none : (t : SlotView n) → best_free n host role ≡ none → CanTake n host role t → ⊥
  best_free-none t h c =
      best_slot_scored-none n host role none
        (slot_of-none (best_slot_scored n host role none) (sym best_free-scored ∙ h)) t c

module _ (n : Float) (req : PlanRequest) (view : FleetView n) where
  -- The asking node's own host, and a slot of it that may be offered.
  pub record Local (host : HostView n) (s : SlotView n) : Type 0 where
    pub listed : get req.node_id view.hosts ≡ some host
    pub takes : CanTake n host req.role s

  -- The federated planner looks at the asking node only: on two views that agree on that node's
  -- host it answers the same.
  pub federated_plan_local :
      (other : FleetView n)
      → get req.node_id view.hosts ≡ get req.node_id other.hosts
      → federated_plan n req view ≡ federated_plan n req other
  unfolding federated_plan
  federated_plan_local other e = ap (on_host n req) e

  best_on-Local :
      (o : Option (HostView n)) (t : SlotView n)
      → get req.node_id view.hosts ≡ o
      → best_on n o req.role ≡ some t
      → (host : HostView n) × Local host t
  unfolding best_on
  best_on-Local none t e h = ground (arith, h)
  best_on-Local (some host) t e h =
      (host, record { listed = e; takes = best_free-CanTake n host req.role t h })

  best_slot-Local :
      (t : SlotView n)
      → best_slot n view req.node_id req.role ≡ some t
      → (host : HostView n) × Local host t
  unfolding best_slot
  best_slot-Local t h = best_on-Local (get req.node_id view.hosts) t refl h

  best_slot-none :
      (host : HostView n) (s : SlotView n)
      → Local host s
      → best_slot n view req.node_id req.role ≡ none
      → ⊥
  unfolding best_slot best_on
  best_slot-none host s l h =
      best_free-none n host req.role s (sym (ap (λ o. best_on n o req.role) l.listed) ∙ h) l.takes

module _ (n : Float) (req : PlanRequest) (view : FleetView n) (roles : RoleCatalogue) where
  after_ok :
      {r : Result (PlanFragment n)}
      → validate_ask req roles ≡ ok tt
      → after (validate_ask req roles) r ≡ r
  unfolding after
  after_ok e = rw e

  head_plan-some :
      (t : SlotView n)
      → validate_ask req roles ≡ ok tt
      → best_slot n view req.node_id req.role ≡ some t
      → head_plan n req view roles
        ≡ ok (fragment_for n req req.node_id t none "local plan satisfies this role")
  unfolding head_plan local_first
  head_plan-some t v e = after_ok v ∙ ap (local_first n req view) e

  head_plan-none :
      validate_ask req roles ≡ ok tt
      → best_slot n view req.node_id req.role ≡ none
      → head_plan n req view roles
        ≡ or_escalate n (monolithic_plan n req view) (escalate_constraint n req view)
  unfolding head_plan local_first
  head_plan-none v e = after_ok v ∙ ap (local_first n req view) e

  -- Local first. When the asking node's own unlocked host has a slot that serves the role,
  -- the head answers a valid ask with such a slot of that host, and measures no round trip.
  pub head_plan-Local :
      (host : HostView n) (s : SlotView n)
      → validate_ask req roles ≡ ok tt
      → Local n req view host s
      → (f : PlanFragment n) × (t : SlotView n) × Local n req view host t
        × (head_plan n req view roles ≡ ok f)
        × (f.host_key ≡ req.node_id)
        × (f.slot ≡ t.slot)
        × (f.rtt_ms ≡ none)
  unfolding fragment_for
  head_plan-Local host s v l = elim (Option-cases (best_slot n view req.node_id req.role)) [
    | inl e ↦ absurd (best_slot-none n req view host s l e)
    | inr (t, e) ↦
        let (host', l') = best_slot-Local n req view t e in
        let same : some host' ≡ some host = sym l'.listed ∙ l.listed in
        let back : host' ≡ host = ground (arith, same) in
        (
          fragment_for n req req.node_id t none "local plan satisfies this role",
          t,
          subst (λ h. Local n req view h t) back l',
          head_plan-some t v e,
          refl,
          refl,
          refl,
        )
  ]

  differs : (f : PlanFragment n) (c : Option String) → ok f ≡ err (escalate_nowhere c) → ⊥
  differs f c h = ground (arith, h)

  nothing : (f : PlanFragment n) → some f ≡ none → ⊥
  nothing f h = ground (arith, h)

  no_slot :
      (c : Option String)
      → validate_ask req roles ≡ ok tt
      → head_plan n req view roles ≡ err (escalate_nowhere c)
      → best_slot n view req.node_id req.role ≡ none
  no_slot c v h = elim (Option-cases (best_slot n view req.node_id req.role)) [
    | inl e ↦ e
    | inr (t, e) ↦ absurd (
        differs (fragment_for n req req.node_id t none "local plan satisfies this role") c
          (sym (head_plan-some t v e) ∙ h))
  ]

  no_fragment :
      (o : Option (PlanFragment n)) (b c : Option String)
      → or_escalate n o b ≡ err (escalate_nowhere c)
      → o ≡ none
  unfolding or_escalate
  no_fragment none b c h = refl
  no_fragment (some f) b c h = absurd (differs f c h)

  head_plan_refuses :
      validate_ask req roles ≡ ok tt
      → best_slot n view req.node_id req.role ≡ none
      → monolithic_plan n req view ≡ none
      → head_plan n req view roles ≡ err (escalate_nowhere (escalate_constraint n req view))
  unfolding or_escalate
  head_plan_refuses v e m =
      head_plan-none v e ∙ ap (λ o. or_escalate n o (escalate_constraint n req view)) m

  -- The head refuses a valid ask as unsatisfiable exactly when neither the asking node nor any other
  -- host of the view has an unlocked place for it.
  pub head_plan_escalates_iff :
      validate_ask req roles ≡ ok tt
      → ((c : Option String) × (head_plan n req view roles ≡ err (escalate_nowhere c))) ↔ (
          ((host : HostView n) (s : SlotView n) → Local n req view host s → ⊥)
          × ((key : String) (host : HostView n) (s : SlotView n)
              → Remote n req view key host s
              → ⊥))
  head_plan_escalates_iff v = (
    (λ (c, h).
        let e = no_slot c v h in
        let m =
          no_fragment (monolithic_plan n req view) (escalate_constraint n req view) c
            (sym (head_plan-none v e) ∙ h) in
        (
          (λ host s l. best_slot-none n req view host s l e),
          (λ key host s r.
              let (f, k) = (monolithic_plan_iff n req view).1 (key, host, s, r) in
              nothing f (sym k ∙ m)),
        )),
    (λ (no_local, no_remote). (
      escalate_constraint n req view,
      head_plan_refuses v
          (elim (Option-cases (best_slot n view req.node_id req.role)) [
            | inl e ↦ e
            | inr (t, e) ↦
                let (host, l) = best_slot-Local n req view t e in absurd (no_local host t l)
          ])
          (elim (Option-cases (monolithic_plan n req view)) [
            | inl e ↦ e
            | inr (f, e) ↦
                let (key, host, s, r) = (monolithic_plan_iff n req view).0 (f, e) in
                absurd (no_remote key host s r)
          ]),
    )),
  )
