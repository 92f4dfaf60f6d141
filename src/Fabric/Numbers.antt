-- ===== src/Fabric/Numbers.antt =====
-- The lease numbers of nauti-fabric/src/lib.rs: what a call does to `next_lease_id`, and the
-- well-formedness along whole runs.
use nauti_virtualizer.Prelude.{
  ℕ, ◌+◌, ◌≤◌, ◌<◌, String, ◌≡◌, refl, ◌∙◌, Option, none, some, List, [], ◌∷◌, arith, length,
  contains, map, if◌then◌else◌,
}
use nauti_virtualizer.Dict.{keys}
use nauti_virtualizer.SortedSet.{collect, difference}
use nauti_virtualizer.Resource.{Resource, Lease, ResourceRequest}
use nauti_virtualizer.Fabric.{
  Fabric, Outcome, ok, err, panic, continue, pure, register, unregister, lease_exclusive,
  find_available, attach, release, renew_lease, instant_sub, heartbeat, register_adapter, u64_mod,
}
use nauti_virtualizer.Fabric.Sweep.{
  RefreshReport, note, register_added, remove_gone, refresh_local, drop_owned, sweep, stale_nodes,
  keys_where, remove_all, evict_before, evict_at, evict_stale_nodes,
}
use nauti_virtualizer.Fabric.Step.{
  Call, step, run, registers, unregisters, registers_adapter, leases, finds, attaches, releases,
  renews, beats, refreshes, evicts,
}
use nauti_virtualizer.Fabric.Valid.{IsValid}
use nauti_virtualizer.Fabric.Invariant.{step-IsValid}

module _ {W : Type 0} where
  unregister_number :
      (id : String) (f : Fabric W) → (unregister id f).1.next_lease_id ≡ f.next_lease_id
  unfolding unregister
  unregister_number id f = ground arith

  register_added_number :
      (added : List String) (rs : List Resource) (f : Fabric W)
      → (register_added added rs f).1.next_lease_id ≡ f.next_lease_id
  unfolding register_added register
  register_added_number added [] f = refl
  register_added_number added (r ∷ rs) f =
      register_added_number added rs (if contains added r.id then (register r f).1 else f)
      ∙ ground arith

  remove_gone_number :
      (ids : List String) (report : RefreshReport) (f : Fabric W)
      → (remove_gone ids report f).1.next_lease_id ≡ f.next_lease_id
  unfolding remove_gone
  remove_gone_number [] report f = refl
  remove_gone_number (id ∷ ids) report f = ground (
    arith,
    unregister_number id f,
    remove_gone_number ids (note id (unregister id f).0 report) (unregister id f).1,
  )

  drop_owned_number :
      (ids : List String) (f : Fabric W) → (drop_owned ids f).1.next_lease_id ≡ f.next_lease_id
  unfolding drop_owned
  drop_owned_number [] f = refl
  drop_owned_number (id ∷ ids) f =
      ground (arith, unregister_number id f, drop_owned_number ids (unregister id f).1)

  find_number :
      (q : ResourceRequest) (f : Fabric W) → (find_available q f).1.next_lease_id ≡ f.next_lease_id
  unfolding find_available
  find_number q f = ground arith

  attach_number :
      (name : String) (l : Lease) (now : ℕ) (f : Fabric W)
      → (attach name l now f).1.next_lease_id ≡ f.next_lease_id
  unfolding attach
  attach_number name l now f = ground arith

  release_number : (l : Lease) (f : Fabric W) → (release l f).1.next_lease_id ≡ f.next_lease_id
  unfolding release
  release_number l f = ground arith

  renew_number :
      (horizon : ℕ) (l : Lease) (ttl pruned renewed : ℕ) (f : Fabric W)
      → (renew_lease horizon l ttl pruned renewed f).1.next_lease_id ≡ f.next_lease_id
  unfolding renew_lease
  renew_number horizon l ttl pruned renewed f = ground arith

  lease_number :
      (horizon : ℕ) (id owner : String) (ttl pruned granted : ℕ) (f : Fabric W)
      → f.next_lease_id + 1 < u64_mod
      → (lease_exclusive horizon id owner ttl pruned granted f).1.next_lease_id
        ≤ f.next_lease_id + 1
  unfolding lease_exclusive
  lease_number horizon id owner ttl pruned granted f small = ground arith

  continue_number :
      {A B : Type 0} (o : Outcome A) (b : B) (f : Fabric W)
      → (continue o (λ _. pure b) f).1.next_lease_id ≡ f.next_lease_id
  continue_number (ok a) b f = refl
  continue_number (err e) b f = refl
  continue_number panic b f = refl

  sweep_number :
      (stale owned : List String) (f : Fabric W)
      → (sweep stale owned f).1.next_lease_id ≡ f.next_lease_id
  unfolding sweep
  sweep_number [] owned f = refl
  sweep_number (n ∷ ns) owned f =
      continue_number (drop_owned owned f).0 (n ∷ ns) (drop_owned owned f).1
      ∙ drop_owned_number owned f

  evict_number :
      (cutoff : Option ℕ) (f : Fabric W) → (evict_at cutoff f).1.next_lease_id ≡ f.next_lease_id
  unfolding evict_at evict_before
  evict_number none f = refl
  evict_number (some cutoff) f =
      let stale = stale_nodes cutoff f in
      sweep_number stale (keys_where (λ (r : Resource). contains stale r.node) f.resources)
        (record f { heartbeats = remove_all stale f.heartbeats })

  refresh_number :
      (discovered : List Resource) (f : Fabric W)
      → (refresh_local discovered f).1.next_lease_id ≡ f.next_lease_id
  unfolding refresh_local
  refresh_number discovered f =
      let new_ids = collect (map (λ (r : Resource). r.id) discovered) in
      let current_ids = collect (keys f.resources) in
      let added = difference new_ids current_ids in
      remove_gone_number (difference current_ids new_ids)
        (record { added = added; removed = []; blocked_by_lease = [] })
        (register_added added discovered f).1
      ∙ register_added_number added discovered f

-- A call uses at most one lease number.
step_number :
    {W : Type 0} (horizon : ℕ) (c : Call W) (f : Fabric W)
    → f.next_lease_id + 1 < u64_mod
    → (step horizon c f).next_lease_id ≤ f.next_lease_id + 1
unfolding step heartbeat register_adapter register evict_stale_nodes
step_number horizon (registers r) f small = omega arith
step_number horizon (unregisters id) f small = omega (arith, unregister_number id f)
step_number horizon (registers_adapter a) f small = omega arith
step_number horizon (leases id owner ttl pruned granted) f small =
    lease_number horizon id owner ttl pruned granted f small
step_number horizon (finds q) f small = omega (arith, find_number q f)
step_number horizon (attaches name l now) f small = omega (arith, attach_number name l now f)
step_number horizon (releases l) f small = omega (arith, release_number l f)
step_number horizon (renews l ttl pruned renewed) f small =
    omega (arith, renew_number horizon l ttl pruned renewed f)
step_number horizon (beats node now) f small = omega arith
step_number horizon (refreshes discovered) f small = omega (arith, refresh_number discovered f)
step_number horizon (evicts older_than now) f small =
    omega (arith, evict_number (instant_sub now older_than) f)

-- A run keeps the fabric valid, whatever its calls and their answers, as long as it is no longer than
-- the lease numbers that are left: entries stand under their own keys, every leased resource is
-- registered, and no two leases share a number.
pub run-IsValid :
    {W : Type 0} (horizon : ℕ) (cs : List (Call W)) (f : Fabric W)
    → f.next_lease_id + length cs < u64_mod
    → IsValid f
    → IsValid (run horizon cs f)
unfolding run
run-IsValid horizon [] f small v = v
run-IsValid horizon (c ∷ cs) f small v =
    run-IsValid horizon cs (step horizon c f) (omega (arith, step_number horizon c f (omega arith)))
      (step-IsValid horizon c f (omega arith) v)
