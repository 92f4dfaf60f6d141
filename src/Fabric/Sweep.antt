-- ===== src/Fabric/Sweep.antt =====
-- The methods of `Fabric` that go over the whole registry: `resources`, `adapter_reports`,
-- `refresh_local` and `evict_stale_nodes` of nauti-fabric/src/lib.rs. What the host reports to
-- `refresh_local` (`HostInventory::discover`, the GPU and hardware discovery) is its argument.
use nauti_virtualizer.Prelude.{
  ℕ, String, ◌++◌, Bool, true, false, Option, none, some, List, [], ◌∷◌, map, ltb, contains,
  if◌then◌else◌,
}
use nauti_virtualizer.Dict.{Dict, remove, retain, keys, values}
use nauti_virtualizer.Resource.{Resource, AdapterReport, resource_already_leased}
use nauti_virtualizer.SortedSet.{collect, difference, sort_by}
use nauti_virtualizer.Fabric.{
  Fabric, Outcome, ok, err, panic, Exec, ◌>>=◌, pure, register, unregister, instant_sub,
}

pub record RefreshReport : Type 0 where
  pub added : List String
  pub removed : List String
  pub blocked_by_lease : List String

-- `map.iter().filter(|(_, v)| p(v)).map(|(k, _)| k)`
unfoldable pub keys_where {ℓ} : {V : Type ℓ} → (V → Bool) → Dict V → List String
keys_where p m = keys (retain p m)

unfoldable pub remove_all {ℓ} : {V : Type ℓ} → List String → Dict V → Dict V
remove_all [] m = m
remove_all (k ∷ ks) m = remove_all ks (remove k m)

-- What one answer of `unregister` adds to the report.
unfoldable pub note : String → Outcome Bool → RefreshReport → RefreshReport
note id (ok true) report = record report { removed = report.removed ++ id ∷ [] }
note id (err resource_already_leased) report = record report {
  blocked_by_lease = report.blocked_by_lease ++ id ∷ [];
}
note id _ report = report

abbrev pub panicked : {A : Type 0} → Outcome A → Bool
panicked panic = true
panicked _ = false

module _ {W : Type 0} where
  unfoldable pub resources : Fabric W → List Resource
  resources f = sort_by (λ r. r.id) (values f.resources)

  unfoldable pub adapter_reports : Fabric W → List AdapterReport
  adapter_reports f =
      sort_by (λ r. r.name) (map (λ a. a.capability_report f.world) (values f.adapters))

  -- `for resource in &new_resources { if added.contains(&resource.id) { self.register(…) } }`
  unfoldable pub register_added : List String → List Resource → Exec W (Unit {0})
  unfolding register
  register_added added [] f = (ok tt, f)
  register_added added (r ∷ rs) f =
      register_added added rs (if contains added r.id then (register r f).1 else f)

  -- `for id in &removed { match self.unregister(id) { … } }`
  unfoldable pub remove_gone : List String → RefreshReport → Exec W RefreshReport
  unfolding note
  remove_gone [] report f = (ok report, f)
  remove_gone (id ∷ ids) report f =
      let r = unregister id f in
      let rest = remove_gone ids (note id r.0 report) r.1 in
      if panicked r.0 then (panic, r.1) else rest

  unfoldable pub refresh_local : List Resource → Exec W RefreshReport
  unfolding register_added remove_gone
  refresh_local discovered f =
      let new_ids = collect (map (λ r. r.id) discovered) in
      let current_ids = collect (keys f.resources) in
      let added = difference new_ids current_ids in
      let gone = difference current_ids new_ids in
      let f' = (register_added added discovered f).1 in
      remove_gone gone (record { added = added; removed = []; blocked_by_lease = [] }) f'

  -- `for id in &owned { let _ = self.unregister(id); }`
  unfoldable pub drop_owned : List String → Exec W (Unit {0})
  drop_owned [] f = (ok tt, f)
  drop_owned (id ∷ ids) f =
      let r = unregister id f in
      let rest = drop_owned ids r.1 in if panicked r.0 then (panic, r.1) else rest

  -- The nodes seen before the cutoff; their heartbeats go.
  unfoldable pub stale_nodes : ℕ → Fabric W → List String
  stale_nodes cutoff f = keys_where (λ seen. ltb seen cutoff) f.heartbeats

  -- `if stale.is_empty() { return stale; }`, and the loop over what the stale nodes own
  unfoldable pub sweep : List String → List String → Exec W (List String)
  unfolding drop_owned
  sweep [] owned = pure []
  sweep (node ∷ nodes) owned = drop_owned owned >>= λ _. pure (node ∷ nodes)

  unfoldable pub evict_before : ℕ → Exec W (List String)
  unfolding stale_nodes sweep keys_where remove_all
  evict_before cutoff f =
      let stale = stale_nodes cutoff f in
      let owned = keys_where (λ r. contains stale r.node) f.resources in
      sweep stale owned (record f { heartbeats = remove_all stale f.heartbeats })

  unfoldable pub evict_at : Option ℕ → Exec W (List String)
  unfolding evict_before
  evict_at none f = (panic, f)
  evict_at (some cutoff) f = evict_before cutoff f

  -- `Instant::now() - older_than` panics before any lock is taken.
  unfoldable pub evict_stale_nodes : ℕ → ℕ → Exec W (List String)
  unfolding evict_at
  evict_stale_nodes older_than now f = evict_at (instant_sub now older_than) f
