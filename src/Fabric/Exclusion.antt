-- ===== src/Fabric/Exclusion.antt =====
-- An exclusive lease stays with its owner until it expires, is released, or is cut short by the
-- owner's own renewal: no sequence of other calls takes it away or grants it twice.
pub mod Calls
use nauti_virtualizer.Prelude.{
  ℕ, ◌+◌, ◌≤◌, ◌<◌, String, ◌≡◌, ◌≢◌, refl, ap, false, Option, none, some, List, [], ◌∷◌, arith,
  eq_iff, eq_refl, str_eq, if◌then◌else◌, contains, Bool-cases, inl, inr,
}
use mathlib.Core.Option
use nauti_virtualizer.Dict.{get, contains_key, kept, insert, get-insert, get-remove, get-retain}
use nauti_virtualizer.Resource.{Resource, Lease, ResourceRequest}
use nauti_virtualizer.Fabric.{
  Fabric, ActiveLease, ok, lock_leases, prune, unexpired, record_lease, new_lease, lease_section,
  lease_exclusive, register, unregister, register_adapter, find_available, attach, release,
  release_check, release_detach, release_remove, take_attachment, renew_lease, renew_entry,
  set_deadline, heartbeat, modify, pure, instant_add,
}
use nauti_virtualizer.Fabric.Keeps.{
  Keeps, Keeps-bind, Keeps-pure, Keeps-bind_gets, Keeps-lock, keeps_rules, Keeps-call_attach,
  Keeps-detach_named,
}
use nauti_virtualizer.Fabric.Sweep.{
  RefreshReport, note, panicked, register_added, remove_gone, refresh_local, drop_owned, sweep,
  evict_at, evict_stale_nodes,
}
use nauti_virtualizer.Fabric.Step.{
  Call, step, run, registers, unregisters, registers_adapter, leases, finds, attaches, releases,
  renews, beats, refreshes, evicts,
}
use nauti_virtualizer.Fabric.Exclusion.Calls.{
  Covers, Holds, Spares, AllSpare, prune-Holds, lease_exclusive-Holds, unregister-Keeps,
  find_available-Keeps, attach-Keeps, release-Keeps, renew_lease-Keeps, refresh_local-Holds,
  evict_at-Holds,
}

module _ {W : Type 0} (l : Lease) (t : ℕ) where
  -- No call that spares the lease takes it away.
  step-Holds :
      (horizon : ℕ) (c : Call W) (f : Fabric W)
      → Spares l t c
      → Holds l t f
      → Holds l t (step horizon c f)
  unfolding step heartbeat register_adapter register evict_stale_nodes
  step-Holds horizon (registers r) f s h = h
  step-Holds horizon (unregisters id) f s h = (unregister-Keeps l t id).at f h
  step-Holds horizon (registers_adapter a) f s h = h
  step-Holds horizon (leases id owner ttl pruned granted) f s h =
      lease_exclusive-Holds l t horizon id owner ttl pruned granted f s h
  step-Holds horizon (finds q) f s h = (find_available-Keeps l t q).at f h
  step-Holds horizon (attaches name m now) f s h = (attach-Keeps l t name m now).at f h
  step-Holds horizon (releases m) f s h = (release-Keeps l t m s).at f h
  step-Holds horizon (renews m ttl pruned renewed) f s h =
      (renew_lease-Keeps l t horizon m ttl pruned renewed s).at f h
  step-Holds horizon (beats node now) f s h = h
  step-Holds horizon (refreshes discovered) f s h = refresh_local-Holds l t discovered f h
  step-Holds horizon (evicts older_than now) f s h = evict_at-Holds l t _ f h

  run-Holds :
      (horizon : ℕ) (cs : List (Call W)) (f : Fabric W)
      → AllSpare l t cs
      → Holds l t f
      → Holds l t (run horizon cs f)
  unfolding run
  run-Holds horizon [] f s h = h
  run-Holds horizon (c ∷ cs) f s h =
      run-Holds horizon cs (step horizon c f) s.1 (step-Holds horizon c f s.0 h)

  -- Under a live entry no second lease is granted.
  refused :
      (horizon : ℕ) (owner : String) (ttl pruned granted : ℕ) (f : Fabric W) (m : Lease)
      → pruned < t
      → Holds l t f
      → (lease_exclusive horizon l.resource_id owner ttl pruned granted f).0 ≢ ok m
  unfolding lease_exclusive contains_key
  refused horizon owner ttl pruned granted f m early h =
      ground (arith, prune-Holds l t pruned f early h)

  record_lease-new :
      (m : Lease) (deadline : Option ℕ) (f : Fabric W)
      → (record_lease m deadline f).0 ≡ ok l
      → Covers l t (Option.map (λ d. record { lease = l; expires_at = d }) deadline)
      → Holds l t (record_lease m deadline f).1
  unfolding record_lease
  record_lease-new m none f got far = absurd far
  record_lease-new m (some d) f got far = ground (
    arith,
    get-insert m.resource_id l.resource_id (record { lease = m; expires_at = d }) f.leases,
    eq_refl l.resource_id,
  )

  granted-Holds :
      (horizon : ℕ) (owner : String) (ttl pruned granted : ℕ) (f : Fabric W)
      → (lease_exclusive horizon l.resource_id owner ttl pruned granted f).0 ≡ ok l
      → t ≤ granted + ttl
      → Holds l t (lease_exclusive horizon l.resource_id owner ttl pruned granted f).1
  unfolding lease_exclusive
  granted-Holds horizon owner ttl pruned granted f got far = ground (
    arith,
    record_lease-new (new_lease l.resource_id owner (prune pruned f).1)
        (instant_add horizon granted ttl) (prune pruned f).1,
  )

-- A lease granted at `granted` for `ttl` is exclusive until that time has passed: after any calls
-- that do not release it, do not renew it to an earlier deadline and do not find the deadline
-- passed, no `lease_exclusive` of its resource that reads the clock before the deadline succeeds.
pub exclusive_until_deadline :
    {W : Type 0} (horizon : ℕ) (owner : String) (ttl pruned granted : ℕ) (f : Fabric W) (l : Lease)
    (cs : List (Call W)) (rival : String) (ttl' pruned' granted' : ℕ) (m : Lease)
    → (lease_exclusive horizon l.resource_id owner ttl pruned granted f).0 ≡ ok l
    → AllSpare l (granted + ttl) cs
    → pruned' < granted + ttl
    → (lease_exclusive horizon l.resource_id rival ttl' pruned' granted'
        (run horizon cs (lease_exclusive horizon l.resource_id owner ttl pruned granted f).1)).0
      ≢ ok m
exclusive_until_deadline horizon owner ttl pruned granted f l cs rival ttl' pruned' granted' m got
      spare early =
    let t : ℕ = granted + ttl in
    refused l t horizon rival ttl' pruned' granted' _ m early (
      run-Holds l t horizon cs _ spare
        (granted-Holds l t horizon owner ttl pruned granted f got (omega arith)))
