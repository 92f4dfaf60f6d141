-- ===== src/Plan/Loop.antt =====
-- The loop of the fleet-wide planner of nauti-fabric/src/plan.rs: where its candidate comes from, when
-- there is none, and that no candidate of a host is better.
use nauti_virtualizer.Prelude.{
  ◌≤◌, String, false, ◌≡◌, ◌≢◌, refl, subst, ◌⊎◌, inl, inr, Option, none, some, [], ◌∷◌, In, arith,
  ltb, str_eq, str_eq_ne,
}
use nauti_virtualizer.Dict.{Dict}
use nauti_virtualizer.Plan.Number.{Float, partial_cmp, gt, fleet_score}
use nauti_virtualizer.Plan.View.{SlotView, HostView, FleetView, PlanRequest, rtt_ms}
use nauti_virtualizer.Plan.Planner.{Candidate, best_slot_scored, candidate_of, offer, better, scan}

gt_by_rank :
    (n : Float) (a b : n.F)
    → n.is_nan a ≡ false
    → n.is_nan b ≡ false
    → gt n a b ≡ ltb (n.rank b) (n.rank a)
unfolding gt partial_cmp
gt_by_rank n a b ha hb = ground (arith, ha, hb)

module _ (n : Float) (ask : PlanRequest) (view : FleetView n) where
  -- The score of a slot of a host for the asking node.
  abbrev pub link_score : String → SlotView n → n.F
  link_score key s = fleet_score n s.free_mb (rtt_ms n view.latency ask.node_id key)

  pub candidate_found :
      (key : String) (rtt : Option n.F) (found : Option (n.F × SlotView n)) (c : Candidate n)
      → candidate_of n key rtt found ≡ some c
      → (c.host_key ≡ key) × (c.rtt ≡ rtt) × (found ≡ some (c.score, c.slot))
  unfolding candidate_of
  candidate_found key rtt none c h = ground (arith, h)
  candidate_found key rtt (some found) c h = ground (arith, h)

  pub candidate_none :
      (key : String) (rtt : Option n.F) (found : Option (n.F × SlotView n))
      → candidate_of n key rtt found ≡ none
      → found ≡ none
  unfolding candidate_of
  candidate_none key rtt none h = refl
  candidate_none key rtt (some found) h = ground (arith, h)

  pub offer_found :
      (key : String) (host : HostView n) (c : Candidate n)
      → offer n ask view key host ≡ some c
      → (str_eq key ask.node_id ≡ false)
        × (candidate_of n key
              (rtt_ms n view.latency ask.node_id key)
              (best_slot_scored n host ask.role (rtt_ms n view.latency ask.node_id key))
            ≡ some c)
  unfolding offer
  offer_found key host c h = ground (arith, h)

  pub offer-none :
      (key : String) (host : HostView n)
      → offer n ask view key host ≡ none
      → key ≢ ask.node_id
      → best_slot_scored n host ask.role (rtt_ms n view.latency ask.node_id key) ≡ none
  unfolding offer
  offer-none key host h ne =
      candidate_none key (rtt_ms n view.latency ask.node_id key)
        (best_slot_scored n host ask.role (rtt_ms n view.latency ask.node_id key))
        (ground (arith, h, str_eq_ne key ask.node_id ne))

  better_from :
      (b o : Option (Candidate n)) (c : Candidate n)
      → better n b o ≡ some c
      → (b ≡ some c) ⊎ (o ≡ some c)
  unfolding better
  better_from b none c h = inl h
  better_from none (some o) c h = inr h
  better_from (some b) (some o) c h = ground (arith, h)

  better-none : (b o : Option (Candidate n)) → better n b o ≡ none → (b ≡ none) × (o ≡ none)
  unfolding better
  better-none b none h = (h, refl)
  better-none none (some o) h = ground (arith, h)
  better-none (some b) (some o) h = ground (arith, h)

  -- A candidate, if there is one, whose score is a number.
  abbrev pub OptionSane : Option (Candidate n) → Type 0
  OptionSane none = Unit
  OptionSane (some c) = n.is_nan c.score ≡ false

  -- The first is no candidate, or one that the second is as good as.
  abbrev pub AtMost : Option (Candidate n) → Option (Candidate n) → Type 0
  AtMost none o = Unit
  AtMost (some b) none = ⊥
  AtMost (some b) (some c) = n.rank b.score ≤ n.rank c.score

  AtMost-refl : (o : Option (Candidate n)) → AtMost o o
  AtMost-refl none = tt
  AtMost-refl (some c) = omega arith

  AtMost-trans : (a b c : Option (Candidate n)) → AtMost a b → AtMost b c → AtMost a c
  AtMost-trans none b c h k = tt
  AtMost-trans (some a) none c h k = absurd h
  AtMost-trans (some a) (some b) none h k = absurd k
  AtMost-trans (some a) (some b) (some c) h k = omega arith

  better-AtMost :
      (b o : Option (Candidate n))
      → OptionSane b
      → OptionSane o
      → AtMost b (better n b o) × AtMost o (better n b o) × OptionSane (better n b o)
  unfolding better
  better-AtMost b none hb ho = (AtMost-refl b, tt, hb)
  better-AtMost none (some o) hb ho = (tt, AtMost-refl (some o), ho)
  better-AtMost (some b) (some o) hb ho = ground (arith, gt_by_rank n o.score b.score ho hb)

  pub scan_from :
      (hosts : Dict (HostView n)) (best : Option (Candidate n)) (c : Candidate n)
      → scan n ask view hosts best ≡ some c
      → (best ≡ some c)
        ⊎ ((key : String) × (host : HostView n) × In (key, host) hosts
            × (offer n ask view key host ≡ some c))
  unfolding scan
  scan_from [] best c h = inl h
  scan_from ((k, x) ∷ hosts) best c h =
      elim (scan_from hosts (better n best (offer n ask view k x)) c h) [
        | inl e ↦ elim (better_from best (offer n ask view k x) c e) [
          | inl b ↦ inl b
          | inr o ↦ inr (k, x, inl refl, o)
        ]
        | inr (key, host, m, o) ↦ inr (key, host, inr m, o)
      ]

  pub scan-none :
      (hosts : Dict (HostView n)) (best : Option (Candidate n))
      → scan n ask view hosts best ≡ none
      → (best ≡ none)
        × ((key : String) (host : HostView n)
            → In (key, host) hosts
            → offer n ask view key host ≡ none)
  unfolding scan
  scan-none [] best h = (h, λ key host m. absurd m)
  scan-none ((k, x) ∷ hosts) best h =
      let (e, later) = scan-none hosts (better n best (offer n ask view k x)) h in
      let (b, o) = better-none best (offer n ask view k x) e in
      (
        b,
        λ key host m. elim m [
          | inl same ↦ subst (λ q. offer n ask view (q.0) (q.1) ≡ none) same o
          | inr m' ↦ later key host m'
        ],
      )

  pub scan-AtMost :
      (hosts : Dict (HostView n)) (best : Option (Candidate n))
      → OptionSane best
      → ((key : String) (host : HostView n)
          → In (key, host) hosts
          → OptionSane (offer n ask view key host))
      → AtMost best (scan n ask view hosts best)
        × ((key : String) (host : HostView n)
            → In (key, host) hosts
            → AtMost (offer n ask view key host) (scan n ask view hosts best))
  unfolding scan
  scan-AtMost [] best hb all = (AtMost-refl best, λ key host m. absurd m)
  scan-AtMost ((k, x) ∷ hosts) best hb all =
      let o = offer n ask view k x in
      let next = better n best o in
      let last = scan n ask view hosts next in
      let (up, up', sane) = better-AtMost best o hb (all k x (inl refl)) in
      let (first, later) = scan-AtMost hosts next sane (λ key host m. all key host (inr m)) in
      (
        AtMost-trans best next last up first,
        λ key host m. elim m [
          | inl same ↦
              subst (λ q. AtMost (offer n ask view (q.0) (q.1)) last) same
                (AtMost-trans o next last up' first)
          | inr m' ↦ later key host m'
        ],
      )
