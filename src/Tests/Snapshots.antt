-- ===== src/Tests/Snapshots.antt =====
-- The theorems on the JSON snapshots of nauti-fabric/src/plan.rs at a fleet of one host.
use nauti_virtualizer.Prelude.{arith, ap, sym, ℕ, false, none, some, ◌≡◌, refl}
use nauti_virtualizer.Json.{
  Value, Items, Fields, null, boolean, number, text, array, object, nil, cons, end, field, items,
  entries,
}
use nauti_virtualizer.Plan.View.{SlotView, PlanFragment, PlanRequest}
use nauti_virtualizer.Plan.Planner.{monolithic_plan, remote_fragment}
use nauti_virtualizer.Plan.Snapshot.{Derived, host_map, from_snapshot_json, read_slots, slot_items}
use nauti_virtualizer.Plan.Intake.{InSnapshot, monolithic_plan-InSnapshot}
use nauti_virtualizer.Plan.Slots.{AllNamed, SameItems, slots_list_or_object}
use nauti_virtualizer.Tests.Fleets.{whole, coder}
use nauti_virtualizer.Vmm.Texts.{is_empty}

-- A decoder that reads a text as the slot of that model.
abbrev derived : Derived whole
derived = record { slot = λ v. elim v [ text s ↦ some coder | _ ↦ none ]; matrix = λ v. none }

-- {"nodes": {"near": {"locked": false, "slots": ["m"]}}}
abbrev near_fields : Fields ℕ
near_fields = field "locked" (boolean false) (field "slots" (array (cons (text "m") nil)) end)

abbrev snapshot : Value ℕ
snapshot = object (field "nodes" (object (field "near" (object near_fields) end)) end)

abbrev ask : PlanRequest
ask = record { node_id = "asker"; role = "coder" }

abbrev placed : PlanFragment whole
placed = record {
  node_id = "asker";
  role = "coder";
  host_key = "near";
  slot = "s0";
  model_id = "m";
  reason = "fleet-wide: near has a healthy coder slot (n MiB free, rtt not measured)";
  resource_id = some "gpu.0";
  rtt_ms = none;
}

monolithic_plan-InSnapshot_example :
    (hosts : Fields ℕ) × (host_map whole derived snapshot ≡ some hosts)
    × InSnapshot whole derived placed "coder" hosts
unfolding monolithic_plan nauti_virtualizer.Plan.Planner.scan from_snapshot_json
    nauti_virtualizer.Plan.Snapshot.view_of host_map nauti_virtualizer.Plan.Snapshot.or_else
    nauti_virtualizer.Json.as_object nauti_virtualizer.Json.at
    nauti_virtualizer.Plan.Snapshot.read_hosts nauti_virtualizer.Plan.Snapshot.with_host
    nauti_virtualizer.Dict.insert nauti_virtualizer.Plan.Planner.offer
    nauti_virtualizer.Plan.Planner.best_slot_scored nauti_virtualizer.Plan.Snapshot.host_view
    nauti_virtualizer.Plan.Snapshot.unwrap_or_false nauti_virtualizer.Plan.Snapshot.and_then_bool
    nauti_virtualizer.Json.as_bool nauti_virtualizer.Dict.get nauti_virtualizer.Json.as_f64
    nauti_virtualizer.Json.as_str nauti_virtualizer.Json.elements nauti_virtualizer.Json.get_field
    nauti_virtualizer.Json.or_null nauti_virtualizer.Plan.Number.fleet_score
    nauti_virtualizer.Plan.Number.fold_max nauti_virtualizer.Plan.Number.gt
    nauti_virtualizer.Plan.Number.max_by nauti_virtualizer.Plan.Number.order
    nauti_virtualizer.Plan.Number.partial_cmp nauti_virtualizer.Plan.Number.pick
    nauti_virtualizer.Plan.Planner.better nauti_virtualizer.Plan.Planner.candidate_of
    nauti_virtualizer.Plan.Planner.fragment_for nauti_virtualizer.Plan.Planner.latency_text
    nauti_virtualizer.Plan.Planner.placed_at remote_fragment nauti_virtualizer.Plan.Planner.scored
    nauti_virtualizer.Plan.Snapshot.direct_or nauti_virtualizer.Plan.Snapshot.fleet_view_matrix
    nauti_virtualizer.Plan.Snapshot.is_nil nauti_virtualizer.Plan.Snapshot.matrix_from_json
    nauti_virtualizer.Plan.Snapshot.matrix_of_row nauti_virtualizer.Plan.Snapshot.named
    nauti_virtualizer.Plan.Snapshot.numbered nauti_virtualizer.Plan.Snapshot.push_slot
    nauti_virtualizer.Plan.Snapshot.read_row read_slots slot_items
    nauti_virtualizer.Plan.Snapshot.slots_value nauti_virtualizer.Plan.Snapshot.unwrap_or_empty
    nauti_virtualizer.Plan.Snapshot.with_node nauti_virtualizer.Plan.View.declares
    nauti_virtualizer.Plan.View.flat nauti_virtualizer.Plan.View.rtt_ms
    nauti_virtualizer.Plan.View.serves nauti_virtualizer.Vmm.Texts.is_empty
monolithic_plan-InSnapshot_example =
    monolithic_plan-InSnapshot whole derived ask snapshot placed refl

slots_list_or_object_example :
    read_slots whole derived (slot_items whole derived (array (cons (text "m") nil)))
    ≡ read_slots whole derived (slot_items whole derived (object (field "left" (text "m") end)))
unfolding AllNamed SameItems is_empty
slots_list_or_object_example =
    slots_list_or_object whole derived (cons (text "m") nil) (field "left" (text "m") end)
      (
        (λ s e. let same : coder ≡ s = ground (arith, e) in ap (λ t. is_empty t.slot) (sym same)),
        tt,
      )
      (refl, tt)
