-- ===== src/Plan/View.antt =====
-- Slots, hosts, the latency matrix and the role catalogue of nauti-fabric/src/plan.rs.
use nauti_virtualizer.Prelude.{
  String, Bool, false, not, Option, none, some, List, [], str_eq, any, keep, contains,
  if◌then◌else◌,
}
use nauti_virtualizer.Dict.{Dict, get}
use nauti_virtualizer.Plan.Number.{Float, order, max_by}

module _ (n : Float) where
  pub record SlotView : Type 0 where
    pub slot : String
    pub model_id : String
    pub roles : List String
    pub healthy : Bool
    pub free_mb : n.F
    pub resource_id : Option String

  pub record HostView : Type 0 where
    pub slots : List SlotView
    pub locked : Bool

  pub record LatencyMatrix : Type 0 where
    pub rpc_median_ms : Dict (Dict (Option n.F))

  pub record FleetView : Type 0 where
    pub hosts : Dict HostView
    pub latency : LatencyMatrix

  pub record PlanFragment : Type 0 where
    pub node_id : String
    pub role : String
    pub host_key : String
    pub slot : String
    pub model_id : String
    pub reason : String
    pub resource_id : Option String
    pub rtt_ms : Option n.F

  unfoldable pub declares : List String → String → String → Bool
  declares [] model_id role = not (str_eq model_id "")
  declares roles model_id role = any (λ r. str_eq r role) roles

  unfoldable pub serves : SlotView → String → Bool
  unfolding declares
  serves s role = if not s.healthy then false else declares s.roles s.model_id role

  -- `?` on a row, then `get(to).copied().flatten()`
  unfoldable pub flat : Option (Dict (Option n.F)) → String → Option n.F
  flat none to = none
  flat (some row) to = elim (get to row) [ none ↦ none | some rtt ↦ rtt ]

  unfoldable pub rtt_ms : LatencyMatrix → String → String → Option n.F
  unfolding flat
  rtt_ms m from to = flat (get from m.rpc_median_ms) to

  -- The filter and the maximum of `FleetView::best_slot`, on a host that is there.
  unfoldable pub best_free : HostView → String → Option SlotView
  unfolding serves
  best_free h role =
      if h.locked
      then none
      else max_by (λ a b. order n a.free_mb b.free_mb) (keep (λ s. serves s role) h.slots)

  unfoldable pub best_on : Option HostView → String → Option SlotView
  unfolding best_free
  best_on none role = none
  best_on (some h) role = best_free h role

  unfoldable pub best_slot : FleetView → String → String → Option SlotView
  unfolding best_on
  best_slot view host_key role = best_on (get host_key view.hosts) role

pub record PlanRequest : Type 0 where
  pub node_id : String
  pub role : String

pub record RoleCatalogue : Type 0 where
  pub roles : List String

-- `RoleCatalogue::contains`
unfoldable pub knows : RoleCatalogue → String → Bool
knows c role = contains c.roles role
