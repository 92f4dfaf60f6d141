-- ===== src/Tests/Fleets.antt =====
-- The theorems on the planners of nauti-fabric/src/plan.rs at a fleet of two hosts, with numbers of
-- MiB and milliseconds for the floats.
use nauti_virtualizer.Prelude.{
  ℕ, ◌-◌, ◌*◌, ◌≤◌, ◌≡◌, ◌↔◌, refl, String, true, false, false≢true, Option, none, some, [], ◌∷◌,
  inl, inr, eq_iff,
}
use nauti_virtualizer.Dict.{get}
use nauti_virtualizer.Plan.Number.{Float, fleet_score, max_by}
use nauti_virtualizer.Plan.View.{
  SlotView, HostView, FleetView, LatencyMatrix, PlanFragment, PlanRequest, RoleCatalogue, serves,
  rtt_ms,
}
use nauti_virtualizer.Plan.Planner.{
  ok, err, escalate_nowhere, best_slot_scored, scored, offer, better, scan, remote_fragment,
  monolithic_plan,
}
use nauti_virtualizer.Plan.Head.{head_plan, validate_ask}
use nauti_virtualizer.Plan.Best.{CanTake}
use nauti_virtualizer.Plan.Loop.{link_score}
use nauti_virtualizer.Plan.Fleet.{Remote, Placed, monolithic_plan_iff, monolithic_plan_best}
use nauti_virtualizer.Plan.Decision.{Local, head_plan-Local, head_plan_escalates_iff}

abbrev pub whole : Float
whole = record {
  F = ℕ;
  is_nan = λ x. false;
  rank = λ x. x;
  sub = λ a b. a - b;
  mul = λ a b. a * b;
  latency_mb_per_ms = 512;
  display = λ x. "n";
  display_ms = λ x. "ms";
  decimal = λ x. "d";
  quoted = λ s. s;
}

abbrev pub coder : SlotView whole
coder = record {
  slot = "s0";
  model_id = "m";
  roles = "coder" ∷ [];
  healthy = true;
  free_mb = 8000;
  resource_id = some "gpu.0";
}

abbrev near : HostView whole
near = record { slots = coder ∷ []; locked = false }

abbrev bare : HostView whole
bare = record { slots = []; locked = false }

abbrev matrix : LatencyMatrix whole
matrix = record { rpc_median_ms = ("asker", ("near", some 3) ∷ []) ∷ [] }

abbrev fleet : FleetView whole
fleet = record { hosts = ("asker", bare) ∷ ("near", near) ∷ []; latency = matrix }

abbrev alone : FleetView whole
alone = record { hosts = ("asker", near) ∷ []; latency = matrix }

abbrev ask : PlanRequest
ask = record { node_id = "asker"; role = "coder" }

abbrev catalogue : RoleCatalogue
catalogue = record { roles = "coder" ∷ [] }

monolithic_plan_iff_example :
    ((f : PlanFragment whole) × (monolithic_plan whole ask fleet ≡ some f)) ↔ (
      (key : String) × (host : HostView whole) × (s : SlotView whole) × Remote whole ask fleet key
        host s)
monolithic_plan_iff_example = monolithic_plan_iff whole ask fleet

coder-CanTake : CanTake whole near "coder" coder
unfolding serves
coder-CanTake = record { unlocked = refl; present = inl refl; serving = refl }

coder-Remote : Remote whole ask fleet "near" near coder
coder-Remote = record {
  listed = inr (inl refl);
  other = λ e. false≢true ((eq_iff "near" "asker").1 e);
  takes = coder-CanTake;
}

abbrev answer : PlanFragment whole
answer = record {
  node_id = "asker";
  role = "coder";
  host_key = "near";
  slot = "s0";
  model_id = "m";
  reason = "fleet-wide: near has a healthy coder slot (n MiB free, rtt ms ms)";
  resource_id = some "gpu.0";
  rtt_ms = some 3;
}

answered : monolithic_plan whole ask fleet ≡ some answer
unfolding monolithic_plan scan offer better best_slot_scored scored serves rtt_ms get fleet_score
    max_by remote_fragment
answered = refl

monolithic_plan_best_example :
    (q : Placed whole ask fleet answer) × (6464 ≤ link_score whole ask fleet "near" q.slot)
unfolding rtt_ms get fleet_score
monolithic_plan_best_example =
    monolithic_plan_best whole ask fleet (λ key host s m k. refl) answer answered "near" near coder
      coder-Remote

head_plan-Local_example :
    (f : PlanFragment whole) × (t : SlotView whole) × Local whole ask alone near t
    × (head_plan whole ask alone catalogue ≡ ok f)
    × (f.host_key ≡ "asker")
    × (f.slot ≡ t.slot)
    × (f.rtt_ms ≡ none)
unfolding get validate_ask
head_plan-Local_example =
    head_plan-Local whole ask alone catalogue near coder refl
      (record { listed = refl; takes = coder-CanTake })

head_plan_escalates_iff_example :
    ((c : Option String) × (head_plan whole ask fleet catalogue ≡ err (escalate_nowhere c))) ↔ (
      ((host : HostView whole) (s : SlotView whole) → Local whole ask fleet host s → ⊥)
      × ((key : String) (host : HostView whole) (s : SlotView whole)
          → Remote whole ask fleet key host s
          → ⊥))
unfolding validate_ask
head_plan_escalates_iff_example = head_plan_escalates_iff whole ask fleet catalogue refl
