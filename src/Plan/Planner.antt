-- ===== src/Plan/Planner.antt =====
-- The two planners of nauti-fabric/src/plan.rs, and the head's order of them. A refusal of the head
-- that only its HTTP client gives (`HeadUnreachable`, `BadResponse`, `BadHeadUrl`) is a constructor
-- that no planner returns.
use Prim.Native.String.{◌++◌ as cat}
use nauti_virtualizer.Prelude.{
  ℕ, String, Option, none, some, [], ◌∷◌, map, keep, str_eq, if◌then◌else◌,
}
use nauti_virtualizer.Dict.{Dict, get}
use nauti_virtualizer.Plan.Number.{Float, fleet_score, order, gt, max_by}
use nauti_virtualizer.Plan.View.{
  SlotView, HostView, FleetView, PlanFragment, PlanRequest, serves, rtt_ms,
}

pub data PlanReject : Type 0 where
  unknown_role : String → PlanReject
  escalate_nowhere : Option String → PlanReject
  missing_field : String → PlanReject
  head_unreachable : String → PlanReject
  bad_response : ℕ → String → String → PlanReject
  unknown_planner : String → PlanReject
  bad_head_url : String → PlanReject

unfoldable pub reason_token : PlanReject → String
reason_token (unknown_role role) = "bad-enum"
reason_token (escalate_nowhere constraint) = "escalate-nowhere"
reason_token (missing_field field) = "missing-field"
reason_token (head_unreachable detail) = "backend-down"
reason_token (bad_response status token detail) = token
reason_token (unknown_planner kind) = "bad-enum"
reason_token (bad_head_url detail) = "bad-enum"

unfoldable pub http_status : PlanReject → Option ℕ
http_status (unknown_role role) = some 404
http_status (escalate_nowhere constraint) = some 403
http_status (missing_field field) = some 422
http_status (bad_response status token detail) = some status
http_status _ = none

-- `Result<(), PlanReject>` and `Result<PlanFragment, PlanReject>`
pub data Result : Type 0 → Type 1 where
  ok : {A : Type 0} → A → Result A
  err : {A : Type 0} → PlanReject → Result A

module _ (n : Float) where
  unfoldable pub scored : Option n.F → SlotView n → n.F × SlotView n
  scored rtt s = (fleet_score n s.free_mb rtt, s)

  unfoldable pub best_slot_scored : HostView n → String → Option n.F → Option (n.F × SlotView n)
  unfolding scored
  best_slot_scored h role rtt =
      if h.locked
      then none
      else max_by (λ a b. order n (a.0) (b.0))
          (map (scored rtt) (keep (λ s. serves n s role) h.slots))

  unfoldable pub fragment_for :
      PlanRequest → String → SlotView n → Option n.F → String → PlanFragment n
  fragment_for ask host_key s rtt reason = record {
    node_id = ask.node_id;
    role = ask.role;
    host_key = host_key;
    slot = s.slot;
    model_id = s.model_id;
    reason = reason;
    resource_id = s.resource_id;
    rtt_ms = rtt;
  }

  -- `(f64, String, &SlotView, Option<f64>)`, what the loop keeps
  pub record Candidate : Type 0 where
    pub score : n.F
    pub host_key : String
    pub slot : SlotView n
    pub rtt : Option n.F

  unfoldable pub candidate_of : String → Option n.F → Option (n.F × SlotView n) → Option Candidate
  candidate_of host_key rtt none = none
  candidate_of host_key rtt (some found) =
      some (record { score = found.0; host_key = host_key; slot = found.1; rtt = rtt })

  -- The candidate of one host, if the loop does not skip it.
  unfoldable pub offer : PlanRequest → FleetView n → String → HostView n → Option Candidate
  unfolding candidate_of
  offer ask view host_key host =
      let rtt = rtt_ms n view.latency ask.node_id host_key in
      if str_eq host_key ask.node_id
      then none
      else candidate_of host_key rtt (best_slot_scored host ask.role rtt)

  unfoldable pub better : Option Candidate → Option Candidate → Option Candidate
  better best none = best
  better none (some c) = some c
  better (some b) (some c) = if gt n c.score b.score then some c else some b

  -- The loop over the hosts.
  unfoldable pub scan :
      PlanRequest → FleetView n → Dict (HostView n) → Option Candidate → Option Candidate
  unfolding better
  scan ask view [] best = best
  scan ask view ((k, h) ∷ hosts) best = scan ask view hosts (better best (offer ask view k h))

  unfoldable pub latency_text : Option n.F → String
  latency_text (some ms) = cat "rtt " (cat (n.display_ms ms) " ms")
  latency_text none = "rtt not measured"

  unfoldable pub remote_fragment : PlanRequest → Candidate → PlanFragment n
  unfolding fragment_for latency_text
  remote_fragment ask c = fragment_for ask c.host_key c.slot c.rtt (
      cat "fleet-wide: " (
        cat c.host_key (
          cat " has a healthy " (
            cat ask.role (
              cat " slot (" (
                cat (n.display c.slot.free_mb)
                  (cat " MiB free, " (cat (latency_text c.rtt) ")"))))))))

  unfoldable pub placed_at : PlanRequest → Option Candidate → Option (PlanFragment n)
  placed_at ask none = none
  placed_at ask (some c) = some (remote_fragment ask c)

  unfoldable pub monolithic_plan : PlanRequest → FleetView n → Option (PlanFragment n)
  unfolding placed_at
  monolithic_plan ask view = placed_at ask (scan ask view view.hosts none)

  unfoldable pub local_fragment : PlanRequest → Option (n.F × SlotView n) → Option (PlanFragment n)
  unfolding fragment_for
  local_fragment ask none = none
  local_fragment ask (some found) = some (
      fragment_for ask ask.node_id (found.1) none
        (cat "local: " (cat ask.node_id (cat " holds a healthy " (cat ask.role " slot")))))

  unfoldable pub on_host : PlanRequest → Option (HostView n) → Option (PlanFragment n)
  on_host ask none = none
  on_host ask (some host) = local_fragment ask (best_slot_scored host ask.role none)

  unfoldable pub federated_plan : PlanRequest → FleetView n → Option (PlanFragment n)
  unfolding on_host
  federated_plan ask view = on_host ask (get ask.node_id view.hosts)
