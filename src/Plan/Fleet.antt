-- ===== src/Plan/Fleet.antt =====
-- The fleet-wide planner of nauti-fabric/src/plan.rs: where it places an ask, when it finds a place
-- at all, and that the place is the best one.
use nauti_virtualizer.Prelude.{
  ◌≤◌, String, false, ◌≡◌, ◌≢◌, refl, sym, ap, subst, ◌∙◌, ◌↔◌, inl, inr, Option, none, some, In,
  arith, Option-cases, eq_iff, false≢true,
}
use nauti_virtualizer.Plan.Number.{Float}
use nauti_virtualizer.Plan.View.{SlotView, HostView, FleetView, PlanFragment, PlanRequest, rtt_ms}
use nauti_virtualizer.Plan.Planner.{
  Candidate, best_slot_scored, offer, scan, placed_at, remote_fragment, fragment_for,
  monolithic_plan,
}
use nauti_virtualizer.Plan.Best.{
  CanTake, best_slot_scored_sound, best_slot_scored-none, best_slot_scored_best,
}
use nauti_virtualizer.Plan.Loop.{
  link_score, candidate_found, offer_found, offer-none, OptionSane, AtMost, scan_from, scan-none,
  scan-AtMost,
}

module _ (n : Float) (ask : PlanRequest) (view : FleetView n) where
  -- The loop may place the ask there: on a host of the view that is not the asker, in a slot of it
  -- that serves the role, and the host is not locked.
  pub record Remote (key : String) (host : HostView n) (s : SlotView n) : Type 0 where
    pub listed : In (key, host) view.hosts
    pub other : key ≢ ask.node_id
    pub takes : CanTake n host ask.role s

  -- The fragment carries the names of the ask and of the slot, and the measured round trip.
  pub record Describes (f : PlanFragment n) (s : SlotView n) : Type 0 where
    pub for_node : f.node_id ≡ ask.node_id
    pub for_role : f.role ≡ ask.role
    pub in_slot : f.slot ≡ s.slot
    pub serving_model : f.model_id ≡ s.model_id
    pub on_resource : f.resource_id ≡ s.resource_id
    pub over_link : f.rtt_ms ≡ rtt_ms n view.latency ask.node_id f.host_key

  offer-Remote :
      (key : String) (host : HostView n) (c : Candidate n)
      → In (key, host) view.hosts
      → offer n ask view key host ≡ some c
      → Remote key host c.slot
        × (c.host_key ≡ key)
        × (c.rtt ≡ rtt_ms n view.latency ask.node_id key)
        × (link_score n ask view key c.slot ≡ c.score)
  offer-Remote key host c m h =
      let rtt = rtt_ms n view.latency ask.node_id key in
      let (ne, made) = offer_found n ask view key host c h in
      let (same, link, found) =
        candidate_found n ask view key rtt (best_slot_scored n host ask.role rtt) c made in
      let (takes, score) = best_slot_scored_sound n host ask.role rtt c.score c.slot found in
      (
        record {
          listed = m;
          other = λ e. false≢true (sym ne ∙ (eq_iff key ask.node_id).1 e);
          takes = takes;
        },
        same,
        link,
        score,
      )

  Remote-offered :
      (key : String) (host : HostView n) (s : SlotView n)
      → Remote key host s
      → offer n ask view key host ≡ none
      → ⊥
  Remote-offered key host s r h =
      best_slot_scored-none n host ask.role (rtt_ms n view.latency ask.node_id key)
        (offer-none n ask view key host h r.other) s r.takes

  from_candidate :
      (o : Option (Candidate n)) (f : PlanFragment n)
      → placed_at n ask o ≡ some f
      → (c : Candidate n) × (o ≡ some c) × (remote_fragment n ask c ≡ f)
  unfolding placed_at
  from_candidate none f h = ground (arith, h)
  from_candidate (some c) f h = (c, refl, ground (arith, h))

  no_candidate : (o : Option (Candidate n)) → placed_at n ask o ≡ none → o ≡ none
  unfolding placed_at
  no_candidate none h = refl
  no_candidate (some c) h = ground (arith, h)

  -- One host of the view and one slot of it, for one fragment.
  pub record Placed (f : PlanFragment n) : Type 0 where
    pub host : HostView n
    pub slot : SlotView n
    pub remote : Remote f.host_key host slot
    pub describes : Describes f slot

  describe :
      (c : Candidate n)
      → c.rtt ≡ rtt_ms n view.latency ask.node_id c.host_key
      → Describes (remote_fragment n ask c) c.slot
  unfolding remote_fragment fragment_for
  describe c e = record {
    for_node = refl;
    for_role = refl;
    in_slot = refl;
    serving_model = refl;
    on_resource = refl;
    over_link = e;
  }

  -- What the planner answers, with the candidate that the loop kept.
  Chosen : PlanFragment n → Candidate n → Type 0
  Chosen f c =
      (scan n ask view view.hosts none ≡ some c)
      × (q : Placed f) × (link_score n ask view f.host_key q.slot ≡ c.score)

  Chosen-at :
      (c : Candidate n)
      → scan n ask view view.hosts none ≡ some c
      → Chosen (remote_fragment n ask c) c
  unfolding Chosen remote_fragment fragment_for
  Chosen-at c e = elim (scan_from n ask view view.hosts none c e) [
    | inl h ↦ ground (arith, h)
    | inr (key, host, m, h) ↦
        let (r, same, link, score) = offer-Remote key host c m h in
        let back = sym same in
        (
          e,
          record {
            host = host;
            slot = c.slot;
            remote = subst (λ k. Remote k host c.slot) back r;
            describes =
                describe c (subst (λ k. c.rtt ≡ rtt_ms n view.latency ask.node_id k) back link);
          },
          subst (λ k. link_score n ask view k c.slot ≡ c.score) back score,
        )
  ]

  chosen :
      (f : PlanFragment n) → monolithic_plan n ask view ≡ some f → (c : Candidate n) × Chosen f c
  unfolding monolithic_plan
  chosen f h =
      let (c, e, made) = from_candidate (scan n ask view view.hosts none) f h in
      (c, subst (λ g. Chosen g c) made (Chosen-at c e))

  -- A fragment describes a slot of a host of the view where the loop may place the ask.
  pub monolithic_plan-Placed : (f : PlanFragment n) → monolithic_plan n ask view ≡ some f → Placed f
  unfolding Chosen
  monolithic_plan-Placed f h = let (c, (e, q, score)) = chosen f h in q

  nowhere :
      (key : String) (host : HostView n) (s : SlotView n)
      → Remote key host s
      → monolithic_plan n ask view ≡ none
      → ⊥
  unfolding monolithic_plan
  nowhere key host s r h =
      let (first, later) =
        scan-none n ask view view.hosts none (no_candidate (scan n ask view view.hosts none) h) in
      Remote-offered key host s r (later key host r.listed)

  -- The fleet-wide planner answers with a fragment exactly when some unlocked host of the view
  -- other than the asker has a slot that serves the role.
  pub monolithic_plan_iff :
      ((f : PlanFragment n) × (monolithic_plan n ask view ≡ some f))
      ↔ ((key : String) × (host : HostView n) × (s : SlotView n) × Remote key host s)
  unfolding Chosen
  monolithic_plan_iff = (
    (λ a.
        let (c, (e, q, score)) = chosen (a.0) (a.1) in ((a.0).host_key, q.host, q.slot, q.remote)),
    (λ b. elim (Option-cases (monolithic_plan n ask view)) [
      | inl e ↦ absurd (nowhere (b.0) (b.1) (b.2) (b.3) e)
      | inr (f, e) ↦ (f, e)
    ]),
  )

  offer-OptionSane :
      ((key : String) (host : HostView n) (s : SlotView n)
        → In (key, host) view.hosts
        → In s host.slots
        → n.is_nan (link_score n ask view key s) ≡ false)
      → (key : String) (host : HostView n) → In (key, host) view.hosts
      → OptionSane n ask view (offer n ask view key host)
  offer-OptionSane sane key host m = elim (Option-cases (offer n ask view key host)) [
    | inl e ↦ subst (OptionSane n ask view) (sym e) tt
    | inr (d, e) ↦
        let (r, same, link, score) = offer-Remote key host d m e in
        subst (OptionSane n ask view) (sym e)
          (ap n.is_nan (sym score) ∙ sane key host d.slot m r.takes.present)
  ]

  -- The candidate of a host is as good as each slot of it that could be offered.
  offered_best :
      (key : String) (host : HostView n) (s : SlotView n) (d : Candidate n)
      → ((z : SlotView n) → In z host.slots → n.is_nan (link_score n ask view key z) ≡ false)
      → Remote key host s
      → offer n ask view key host ≡ some d
      → n.rank (link_score n ask view key s) ≤ n.rank d.score
  offered_best key host s d sane r h =
      let rtt = rtt_ms n view.latency ask.node_id key in
      let (ne, made) = offer_found n ask view key host d h in
      let (same, link, found) =
        candidate_found n ask view key rtt (best_slot_scored n host ask.role rtt) d made in
      best_slot_scored_best n host ask.role rtt d.score d.slot s sane found r.takes

  offered_somewhere :
      (key : String) (host : HostView n) (s : SlotView n)
      → Remote key host s
      → (d : Candidate n) × (offer n ask view key host ≡ some d)
  offered_somewhere key host s r = elim (Option-cases (offer n ask view key host)) [
    | inl e ↦ absurd (Remote-offered key host s r e)
    | inr found ↦ found
  ]

  -- The place is the best one. When no score of a slot is NaN, a fragment that the fleet-wide
  -- planner answers with describes a slot of an unlocked host other than the asker that serves
  -- the role, and no other such slot of the fleet has a greater score over its link.
  pub monolithic_plan_best :
      ((key : String) (host : HostView n) (s : SlotView n)
        → In (key, host) view.hosts
        → In s host.slots
        → n.is_nan (link_score n ask view key s) ≡ false)
      → (f : PlanFragment n) → monolithic_plan n ask view ≡ some f
      → (key : String) (host : HostView n) (s : SlotView n) → Remote key host s
      → (q : Placed f) × (n.rank (link_score n ask view key s)
          ≤ n.rank (link_score n ask view f.host_key q.slot))
  unfolding Chosen
  monolithic_plan_best sane f h key host s r =
      let (c, (e, q, score)) = chosen f h in
      let (d, o) = offered_somewhere key host s r in
      let all = scan-AtMost n ask view view.hosts none tt (offer-OptionSane sane) in
      let below =
        subst (λ w. AtMost n ask view (some d) w) e
          (subst (λ w. AtMost n ask view w (scan n ask view view.hosts none)) o
            (all.1 key host r.listed)) in
      (
        q,
        omega (
          arith,
          below,
          ap n.rank score,
          offered_best key host s d (λ z m. sane key host z r.listed m) r o,
        ),
      )
