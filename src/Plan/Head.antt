-- ===== src/Plan/Head.antt =====
-- The head of nauti-fabric/src/plan.rs: the validation of an ask, the refusal that names what was
-- observed, and the orders in which the planners are consulted.
use Prim.Native.String.{◌++◌ as cat}
use nauti_virtualizer.Prelude.{
  ℕ, String, not, ◌&&◌, ◌==◌, Option, none, some, List, [], ◌∷◌, ◌++◌, keep, any, length, str_eq,
  if◌then◌else◌,
}
use nauti_virtualizer.Dict.{Dict, values}
use nauti_virtualizer.SortedSet.{sort_by}
use nauti_virtualizer.Plan.Number.{Float}
use nauti_virtualizer.Plan.Text.{is_blank}
use nauti_virtualizer.Plan.View.{
  SlotView, HostView, FleetView, PlanFragment, PlanRequest, RoleCatalogue, best_slot, knows,
}
use nauti_virtualizer.Plan.Planner.{
  Result, ok, err, escalate_nowhere, missing_field, unknown_role, unknown_planner, fragment_for,
  monolithic_plan, federated_plan,
}

-- The implementations of `FleetPlanner`.
pub data FleetPlanner : Type 0 where
  monolithic : FleetPlanner
  federated : FleetPlanner

unfoldable pub name : FleetPlanner → String
name monolithic = "monolithic"
name federated = "federated"

unfoldable pub get_planner : String → Result FleetPlanner
get_planner kind =
    if str_eq kind "monolithic"
    then ok monolithic
    else if str_eq kind "federated"
    then ok federated
    else err (unknown_planner kind)

unfoldable pub validate_ask : PlanRequest → RoleCatalogue → Result Unit
unfolding is_blank knows
validate_ask req roles =
    if is_blank req.node_id
    then err (missing_field "node_id")
    else if is_blank req.role
    then err (missing_field "role")
    else if not (knows roles req.role)
    then err (unknown_role req.role)
    else ok tt

-- The `?` of a check that returns nothing.
unfoldable pub after : {A : Type 0} → Result Unit → Result A → Result A
after (ok u) r = r
after (err e) r = err e

unfoldable pub join : String → List String → String
join sep [] = ""
join sep (s ∷ []) = s
join sep (s ∷ t ∷ rest) = cat s (cat sep (join sep (t ∷ rest)))

module _ (n : Float) where
  unfoldable pub all_slots : List (HostView n) → List (SlotView n)
  all_slots [] = []
  all_slots (h ∷ hs) = h.slots ++ all_slots hs

  unfoldable pub locked_keys : Dict (HostView n) → List String
  locked_keys [] = []
  locked_keys ((k, h) ∷ hosts) = let rest = locked_keys hosts in if h.locked then k ∷ rest else rest

  unfoldable pub unhealthy_count : PlanRequest → FleetView n → ℕ
  unfolding all_slots
  unhealthy_count ask view = length (
      keep (λ s. not s.healthy && any (λ r. str_eq r ask.role) s.roles)
        (all_slots (values view.hosts)))

  unfoldable pub locked_note : List String → String
  unfolding join
  locked_note [] = ""
  locked_note (k ∷ ks) = cat "; locked: " (join ", " (sort_by (λ s. s) (k ∷ ks)))

  unfoldable pub unhealthy_note : ℕ → String
  unhealthy_note count =
      if count == 0 then "" else cat "; " (cat (n.decimal count) " serving slot(s) unhealthy")

  unfoldable pub constraint_of : PlanRequest → FleetView n → Dict (HostView n) → Option String
  unfolding locked_note unhealthy_note unhealthy_count locked_keys
  constraint_of ask view [] = none
  constraint_of ask view (h ∷ hosts) = some (
      cat "no healthy unlocked slot serves role " (
        cat (n.quoted ask.role) (
          cat " across " (
            cat (n.decimal (length (h ∷ hosts))) (
              cat " host(s)" (
                cat (locked_note (locked_keys (h ∷ hosts)))
                  (unhealthy_note (unhealthy_count ask view))))))))

  unfoldable pub escalate_constraint : PlanRequest → FleetView n → Option String
  escalate_constraint ask view = constraint_of ask view view.hosts

  unfoldable pub plan : FleetPlanner → PlanRequest → FleetView n → Option (PlanFragment n)
  plan monolithic ask view = monolithic_plan n ask view
  plan federated ask view = federated_plan n ask view

  -- `ok_or_else(|| PlanReject::EscalateNowhere { constraint })`
  unfoldable pub or_escalate : Option (PlanFragment n) → Option String → Result (PlanFragment n)
  or_escalate (some fragment) constraint = ok fragment
  or_escalate none constraint = err (escalate_nowhere constraint)

  -- `constraint.map(|detail| format!("{name}: {detail}"))`
  unfoldable pub prefixed : String → Option String → Option String
  prefixed who none = none
  prefixed who (some detail) = some (cat who (cat ": " detail))

  unfoldable pub plan_with :
      FleetPlanner → PlanRequest → FleetView n → RoleCatalogue → Result (PlanFragment n)
  unfolding after
  plan_with planner req view roles =
      after (validate_ask req roles) (
        or_escalate (plan planner req view)
          (prefixed (name planner) (escalate_constraint req view)))

  -- The three steps of `head_plan` behind the validation.
  unfoldable pub local_first :
      PlanRequest → FleetView n → Option (SlotView n) → Result (PlanFragment n)
  local_first req view (some s) =
      ok (fragment_for n req req.node_id s none "local plan satisfies this role")
  local_first req view none =
      or_escalate (monolithic_plan n req view) (escalate_constraint req view)

  unfoldable pub head_plan : PlanRequest → FleetView n → RoleCatalogue → Result (PlanFragment n)
  unfolding after
  head_plan req view roles =
      after (validate_ask req roles) (local_first req view (best_slot n view req.node_id req.role))

  unfoldable pub by_planner :
      Result FleetPlanner → PlanRequest → FleetView n → RoleCatalogue → Result (PlanFragment n)
  by_planner (ok monolithic) req view roles = head_plan req view roles
  by_planner (ok federated) req view roles = plan_with federated req view roles
  by_planner (err e) req view roles = err e

  -- Its match on the kind is that of `get_planner`.
  unfoldable pub plan_by_kind :
      String → PlanRequest → FleetView n → RoleCatalogue → Result (PlanFragment n)
  unfolding after by_planner get_planner
  plan_by_kind kind req view roles =
      after (validate_ask req roles) (by_planner (get_planner kind) req view roles)
