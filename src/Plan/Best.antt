-- ===== src/Plan/Best.antt =====
-- The maximum that `max_by` picks, and the slot that a host offers: nauti-fabric/src/plan.rs.
use Prim.Native.Nat.{compare, Ordering}
use nauti_virtualizer.Prelude.{
  ℕ, ◌≤◌, String, Bool, true, false, ◌≡◌, refl, sym, ap, subst, ◌∙◌, ◌⊎◌, inl, inr, Option, none,
  some, List, [], ◌∷◌, map, keep, In, In-keep, arith,
}
use nauti_virtualizer.Plan.Number.{Float, partial_cmp, order, fleet_score, pick, fold_max, max_by}
use nauti_virtualizer.Plan.View.{SlotView, HostView, serves}
use nauti_virtualizer.Plan.Planner.{scored, best_slot_scored}

module _ {A : Type 0} (cmp : A → A → Ordering) where
  pick-either : (o : Ordering) (b x : A) → (pick o b x ≡ b) ⊎ (pick o b x ≡ x)
  unfolding pick
  pick-either Ordering.lt b x = inr refl
  pick-either Ordering.eq b x = inr refl
  pick-either Ordering.gt b x = inl refl

  fold_max-In : (b : A) (xs : List A) → In (fold_max cmp b xs) (b ∷ xs)
  unfolding fold_max
  fold_max-In b [] = inl refl
  fold_max-In b (x ∷ xs) =
      ground (arith, fold_max-In (pick (cmp b x) b x) xs, pick-either (cmp b x) b x)

  -- What `max_by` returns is one of the items.
  pub max_by-In : (a : A) (xs : List A) → max_by cmp xs ≡ some a → In a xs
  unfolding max_by
  max_by-In a [] h = ground arith
  max_by-In a (x ∷ xs) h =
      ground (arith, fold_max-In x xs, ap (λ y. In y (x ∷ xs)) {x = fold_max cmp x xs} {y = a})

  -- `max_by` returns nothing for the empty list only.
  pub max_by-none : (xs : List A) → max_by cmp xs ≡ none → xs ≡ []
  unfolding max_by
  max_by-none [] h = refl
  max_by-none (x ∷ xs) h = ground arith

module _ {A : Type 0} (cmp : A → A → Ordering) (r : A → ℕ) (p : A → Type 0)
    (by_rank : (a b : A) → p a → p b → cmp a b ≡ compare (r a) (r b)) where
  pick_rank :
      (o : Ordering) (b x : A)
      → compare (r b) (r x) ≡ o
      → p b
      → p x
      → p (pick o b x) × (r b ≤ r (pick o b x)) × (r x ≤ r (pick o b x))
  unfolding pick
  pick_rank Ordering.lt b x e hb hx = (hx, ground (arith, e), omega arith)
  pick_rank Ordering.eq b x e hb hx = (hx, ground (arith, e), omega arith)
  pick_rank Ordering.gt b x e hb hx = (hb, omega arith, ground (arith, e))

  fold_max_rank :
      (b : A) (xs : List A)
      → p b
      → ((y : A) → In y xs → p y)
      → (r b ≤ r (fold_max cmp b xs)) × ((y : A) → In y xs → r y ≤ r (fold_max cmp b xs))
  unfolding fold_max
  fold_max_rank b [] hb all = (omega arith, λ y h. absurd h)
  fold_max_rank b (x ∷ xs) hb all =
      let (hp, hb', hx) =
        pick_rank (cmp b x) b x (sym (by_rank b x hb (all x (inl refl)))) hb (all x (inl refl)) in
      let (first, others) = fold_max_rank (pick (cmp b x) b x) xs hp (λ y h. all y (inr h)) in
      (omega arith, λ y h. elim h [ inl e ↦ omega (arith, ap r e) | inr later ↦ others y later ])

  -- What `max_by` returns ranks as high as every item, on items that compare by their ranks.
  pub max_by_rank :
      (a y : A) (xs : List A)
      → ((z : A) → In z xs → p z)
      → max_by cmp xs ≡ some a
      → In y xs
      → r y ≤ r a
  unfolding max_by
  max_by_rank a y [] all h m = absurd m
  max_by_rank a y (x ∷ xs) all h m =
      let (first, others) = fold_max_rank x xs (all x (inl refl)) (λ z k. all z (inr k)) in
      let same : fold_max cmp x xs ≡ a = ground (arith, h) in
      elim m [
        | inl e ↦ omega (arith, ap r e, ap r same)
        | inr later ↦ omega (arith, others y later, ap r same)
      ]

In-map :
    {A B : Type 0} (f : A → B) (b : B) (xs : List A)
    → In b (map f xs)
    → (x : A) × In x xs × (f x ≡ b)
In-map f b [] h = absurd h
In-map f b (x ∷ xs) h = elim h [
  | inl e ↦ (x, inl refl, e)
  | inr later ↦ let (y, m, e) = In-map f b xs later in (y, inr m, e)
]

map-In : {A B : Type 0} (f : A → B) (x : A) (xs : List A) → In x xs → In (f x) (map f xs)
map-In f x [] h = absurd h
map-In f x (y ∷ xs) h = elim h [ inl e ↦ inl (ap f e) | inr later ↦ inr (map-In f x xs later) ]

keep-In :
    {A : Type 0} (p : A → Bool) (x : A) (xs : List A) → In x xs → p x ≡ true → In x (keep p xs)
keep-In p x [] h e = absurd h
keep-In p x (y ∷ xs) h e = ground (arith, keep-In p x xs, ap p {x = y} {y = x})

order_by_rank :
    (n : Float) (a b : n.F)
    → n.is_nan a ≡ false
    → n.is_nan b ≡ false
    → order n a b ≡ compare (n.rank a) (n.rank b)
unfolding order partial_cmp
order_by_rank n a b ha hb = ground (arith, ha, hb)

module _ (n : Float) (host : HostView n) (role : String) where
  -- The slot may be offered: it stands on the unlocked host and serves the role.
  pub record CanTake (s : SlotView n) : Type 0 where
    pub unlocked : host.locked ≡ false
    pub present : In s host.slots
    pub serving : serves n s role ≡ true

module _ (n : Float) (host : HostView n) (role : String) (rtt : Option n.F) where
  offered : List (n.F × SlotView n)
  unfolding scored
  offered = map (scored n rtt) (keep (λ s. serves n s role) host.slots)

  offered-In : (s : SlotView n) → CanTake n host role s → In (scored n rtt s) offered
  unfolding offered
  offered-In s c =
      map-In (scored n rtt) s (keep (λ t. serves n t role) host.slots)
        (keep-In (λ t. serves n t role) s host.slots c.present c.serving)

  by_score : n.F × SlotView n → n.F × SlotView n → Ordering
  by_score a b = order n (a.0) (b.0)

  open_host : host.locked ≡ false → best_slot_scored n host role rtt ≡ max_by by_score offered
  unfolding best_slot_scored by_score offered
  open_host e = rw e

  offers_unlocked :
      (found : n.F × SlotView n)
      → best_slot_scored n host role rtt ≡ some found
      → host.locked ≡ false
  unfolding best_slot_scored
  offers_unlocked found h = ground (arith, h)

  In-offered :
      (score : n.F) (s : SlotView n)
      → In (score, s) offered
      → In s host.slots × (serves n s role ≡ true) × (fleet_score n s.free_mb rtt ≡ score)
  unfolding offered scored
  In-offered score s m =
      let (x, kept, e) =
        In-map (scored n rtt) (score, s) (keep (λ t. serves n t role) host.slots) m in
      let (present, serving) = In-keep (λ t. serves n t role) x host.slots kept in
      let same : x ≡ s = ap (λ q. q.1) e in
      (
        subst (λ t. In t host.slots) same present,
        ap (λ t. serves n t role) (sym same) ∙ serving,
        ap (λ t. fleet_score n t.free_mb rtt) (sym same) ∙ ap (λ q. q.0) e,
      )

  -- What `best_slot_scored` offers stands on the unlocked host, serves the role, and has its score.
  pub best_slot_scored_sound :
      (score : n.F) (s : SlotView n)
      → best_slot_scored n host role rtt ≡ some (score, s)
      → CanTake n host role s × (fleet_score n s.free_mb rtt ≡ score)
  best_slot_scored_sound score s h =
      let unlocked = offers_unlocked (score, s) h in
      let (present, serving, e) =
        In-offered score s (max_by-In by_score (score, s) offered (sym (open_host unlocked) ∙ h)) in
      (record { unlocked = unlocked; present = present; serving = serving }, e)

  -- It offers nothing only when no slot can be offered.
  pub best_slot_scored-none :
      best_slot_scored n host role rtt ≡ none → (s : SlotView n) → CanTake n host role s → ⊥
  best_slot_scored-none h s c =
      subst (λ xs. In (scored n rtt s) xs)
        (max_by-none by_score offered (sym (open_host c.unlocked) ∙ h)) (offered-In s c)

  -- No slot that could be offered has a better score, when no score is NaN.
  pub best_slot_scored_best :
      (score : n.F) (s y : SlotView n)
      → ((z : SlotView n) → In z host.slots → n.is_nan (fleet_score n z.free_mb rtt) ≡ false)
      → best_slot_scored n host role rtt ≡ some (score, s)
      → CanTake n host role y
      → n.rank (fleet_score n y.free_mb rtt) ≤ n.rank score
  unfolding by_score scored
  best_slot_scored_best score s y sane h c =
      max_by_rank by_score (λ a. n.rank (a.0)) (λ a. n.is_nan (a.0) ≡ false)
        (λ a b ha hb. order_by_rank n (a.0) (b.0) ha hb) (score, s) (scored n rtt y) offered
        (λ z m.
          let (present, serving, e) = In-offered (z.0) (z.1) m in
          ap n.is_nan (sym e) ∙ sane (z.1) present)
        (sym (open_host c.unlocked) ∙ h) (offered-In y c)
