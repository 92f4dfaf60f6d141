-- ===== src/Plan/Snapshot.antt =====
-- The JSON forms that nauti-fabric/src/plan.rs accepts: `LatencyMatrix::from_json`,
-- `FleetView::from_snapshot_json` and `RoleCatalogue::from_json`. The decoders that serde derives for
-- the two structs are the parameter `Derived`.
use nauti_virtualizer.Prelude.{
  ℕ, String, ◌+◌, Bool, true, false, not, Option, none, some, List, [], ◌∷◌, if◌then◌else◌, keep,
}
use nauti_virtualizer.Dict.{Dict, insert}
use nauti_virtualizer.Json.{
  Value, array, object, items, entries, get_field, at, as_str, as_bool, as_f64, elements, as_object,
  Fields,
}
use nauti_virtualizer.Plan.Number.{Float}
use nauti_virtualizer.Plan.Text.{starts_with_underscore}
use nauti_virtualizer.Plan.View.{SlotView, HostView, FleetView, LatencyMatrix, RoleCatalogue}
use nauti_virtualizer.Vmm.Texts.{is_empty}

-- `serde_json::from_value::<SlotView>` and `serde_json::from_value::<LatencyMatrix>`
pub record Derived (n : Float) : Type 0 where
  pub slot : Value n.F → Option (SlotView n)
  pub matrix : Value n.F → Option (LatencyMatrix n)

unfoldable pub is_nil {ℓ} : {A : Type ℓ} → List A → Bool
is_nil [] = true
is_nil (x ∷ xs) = false

-- The first that is there.
unfoldable pub or_else {ℓ} : {A : Type ℓ} → Option A → Option A → Option A
or_else none later = later
or_else (some a) later = some a

unfoldable pub unwrap_or_false : Option Bool → Bool
unwrap_or_false none = false
unwrap_or_false (some b) = b

unfoldable pub unwrap_or_empty : Option String → String
unwrap_or_empty none = ""
unwrap_or_empty (some s) = s

module _ (n : Float) (serde : Derived n) where
  -- One node of a `nauti_fleet_view`.
  unfoldable pub with_node : Option String → Option n.F → Dict (Option n.F) → Dict (Option n.F)
  with_node none median row = row
  with_node (some to) median row = insert to median row

  -- The loop over the nodes.
  unfoldable pub read_row : List (Value n.F) → Dict (Option n.F) → Dict (Option n.F)
  read_row [] row = row
  read_row (node ∷ nodes) row =
      read_row nodes
        (with_node (as_str (at node "node")) (as_f64 (at (at node "rpc_rtt_ms") "median")) row)

  unfoldable pub matrix_of_row : String → Dict (Option n.F) → LatencyMatrix n
  matrix_of_row from row = record { rpc_median_ms = if is_nil row then [] else (from, row) ∷ [] }

  unfoldable pub fleet_view_matrix : Value n.F → LatencyMatrix n
  fleet_view_matrix value =
      let from = unwrap_or_empty (as_str (at value "from")) in
      if is_empty from
      then record { rpc_median_ms = [] }
      else matrix_of_row from (read_row (elements (at value "nodes")) [])

  unfoldable pub direct_or : Option (LatencyMatrix n) → LatencyMatrix n → LatencyMatrix n
  direct_or none m = m
  direct_or (some direct) m = if is_nil direct.rpc_median_ms then m else direct

  -- `LatencyMatrix::from_json`
  unfoldable pub matrix_from_json : Value n.F → LatencyMatrix n
  matrix_from_json value = direct_or (serde.matrix value) (fleet_view_matrix value)

  unfoldable pub numbered : ℕ → List (Value n.F) → List (String × Value n.F)
  numbered i [] = []
  numbered i (v ∷ vs) = (n.decimal i, v) ∷ numbered (i + 1) vs

  unfoldable pub slot_items : Value n.F → List (String × Value n.F)
  slot_items (array vs) = numbered 0 (items vs)
  slot_items (object fs) = entries fs
  slot_items _ = []

  unfoldable pub named : String → SlotView n → SlotView n
  named key s = record s { slot = if is_empty s.slot then key else s.slot }

  unfoldable pub push_slot : String → Option (SlotView n) → List (SlotView n) → List (SlotView n)
  push_slot key none rest = rest
  push_slot key (some s) rest = named key s ∷ rest

  -- The loop over the items of one host.
  unfoldable pub read_slots : List (String × Value n.F) → List (SlotView n)
  read_slots [] = []
  read_slots ((key, item) ∷ rest) = push_slot key (serde.slot item) (read_slots rest)

  -- `host_info.get("slots")`, or else the host itself
  unfoldable pub slots_value : Option (Value n.F) → Value n.F → Value n.F
  slots_value none host_value = host_value
  slots_value (some v) host_value = v

  unfoldable pub and_then_bool : Option (Value n.F) → Option Bool
  and_then_bool none = none
  and_then_bool (some v) = as_bool v

  unfoldable pub host_view : Fields n.F → Value n.F → HostView n
  host_view host_info host_value = record {
    slots = read_slots (slot_items (slots_value (get_field "slots" host_info) host_value));
    locked = unwrap_or_false (and_then_bool (get_field "locked" host_info));
  }

  unfoldable pub with_host :
      String → Value n.F → Option (Fields n.F) → Dict (HostView n) → Dict (HostView n)
  with_host host_key host_value none hosts = hosts
  with_host host_key host_value (some host_info) hosts =
      insert host_key (host_view host_info host_value) hosts

  -- The loop over the hosts.
  unfoldable pub read_hosts : List (String × Value n.F) → Dict (HostView n) → Dict (HostView n)
  read_hosts [] hosts = hosts
  read_hosts ((k, v) ∷ rest) hosts = read_hosts rest (with_host k v (as_object v) hosts)

  unfoldable pub host_map : Value n.F → Option (Fields n.F)
  host_map value = or_else (as_object (at value "nodes")) (
      or_else (as_object (at value "hosts"))
        (or_else (as_object (at value "fleet")) (as_object value)))

  unfoldable pub view_of : Option (Fields n.F) → LatencyMatrix n → FleetView n
  view_of none latency = record { hosts = []; latency = record { rpc_median_ms = [] } }
  view_of (some hosts) latency = record { hosts = read_hosts (entries hosts) []; latency = latency }

  unfoldable pub from_snapshot_json : Value n.F → FleetView n
  from_snapshot_json value = view_of (host_map value) (matrix_from_json value)

  unfoldable pub with_latency : FleetView n → LatencyMatrix n → FleetView n
  with_latency view latency = record view { latency = latency }

-- Keys that begin with `_` are comments.
unfoldable pub roles_of : List String → RoleCatalogue
roles_of names = record { roles = keep (λ r. not (starts_with_underscore r)) names }

module _ {F : Type 0} where
  unfoldable pub texts : List (Value F) → List String
  texts [] = []
  texts (v ∷ vs) = let rest = texts vs in elim (as_str v) [ none ↦ rest | some s ↦ s ∷ rest ]

  unfoldable pub first_components : List (String × Value F) → List String
  first_components [] = []
  first_components ((k, v) ∷ rest) = k ∷ first_components rest

  -- `RoleCatalogue::from_json`
  unfoldable pub catalogue_from_json : Value F → RoleCatalogue
  catalogue_from_json (array vs) = roles_of (texts (items vs))
  catalogue_from_json (object fs) = roles_of (first_components (entries fs))
  catalogue_from_json _ = record { roles = [] }
