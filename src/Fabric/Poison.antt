-- ===== src/Fabric/Poison.antt =====
-- A deadline past the last instant panics under the guard of `leases`, and what that does to the
-- calls that follow.
use nauti_virtualizer.Prelude.{
  ℕ, ◌+◌, ◌<◌, String, ◌≡◌, true, Option, none, some, List, [], ◌∷◌, arith, Bool-cases, inl, inr,
  contains, if◌then◌else◌,
}
use nauti_virtualizer.Dict.{get, contains_key, get-retain}
use nauti_virtualizer.Resource.{Resource, Lease, ResourceRequest, is_available}
use nauti_virtualizer.Fabric.{
  Fabric, panic, unexpired, lease_exclusive, register, unregister, register_adapter, find_available,
  attach, release, renew_lease, heartbeat, pure,
}
use nauti_virtualizer.Fabric.Keeps.{Keeps-bind, Keeps-pure}
use nauti_virtualizer.Fabric.Sweep.{
  RefreshReport, note, panicked, register_added, remove_gone, refresh_local, drop_owned, sweep,
  evict_at, evict_stale_nodes,
}
use nauti_virtualizer.Fabric.Step.{
  Call, step, run, registers, unregisters, registers_adapter, leases, finds, attaches, releases,
  renews, beats, refreshes, evicts,
}

abbrev pub IsPoisoned : {W : Type 0} → Fabric W → Type 0
IsPoisoned f = f.leases_poisoned ≡ true

module _ {W : Type 0} where
  -- Behind a poisoned lock the section is never entered.
  lease_exclusive-IsPoisoned :
      (horizon : ℕ) (id owner : String) (ttl pruned granted : ℕ) (f : Fabric W)
      → IsPoisoned f
      → IsPoisoned (lease_exclusive horizon id owner ttl pruned granted f).1
  unfolding lease_exclusive
  lease_exclusive-IsPoisoned horizon id owner ttl pruned granted f p = ground arith

  unregister-IsPoisoned :
      (id : String) (f : Fabric W) → IsPoisoned f → IsPoisoned (unregister id f).1
  unfolding unregister
  unregister-IsPoisoned id f p = ground arith

  find_available-IsPoisoned :
      (q : ResourceRequest) (f : Fabric W) → IsPoisoned f → IsPoisoned (find_available q f).1
  unfolding find_available
  find_available-IsPoisoned q f p = ground arith

  attach-IsPoisoned :
      (name : String) (l : Lease) (now : ℕ) (f : Fabric W)
      → IsPoisoned f
      → IsPoisoned (attach name l now f).1
  unfolding attach
  attach-IsPoisoned name l now f p = ground arith

  release-IsPoisoned : (l : Lease) (f : Fabric W) → IsPoisoned f → IsPoisoned (release l f).1
  unfolding release
  release-IsPoisoned l f p = ground arith

  renew_lease-IsPoisoned :
      (horizon : ℕ) (l : Lease) (ttl pruned renewed : ℕ) (f : Fabric W)
      → IsPoisoned f
      → IsPoisoned (renew_lease horizon l ttl pruned renewed f).1
  unfolding renew_lease
  renew_lease-IsPoisoned horizon l ttl pruned renewed f p = ground arith

  register_added-IsPoisoned :
      (added : List String) (rs : List Resource) (f : Fabric W)
      → IsPoisoned f
      → IsPoisoned (register_added added rs f).1
  unfolding register_added register
  register_added-IsPoisoned added [] f p = p
  register_added-IsPoisoned added (r ∷ rs) f p =
      register_added-IsPoisoned added rs (if contains added r.id then (register r f).1 else f)
        (ground arith)

  remove_gone-IsPoisoned :
      (ids : List String) (report : RefreshReport) (f : Fabric W)
      → IsPoisoned f
      → IsPoisoned (remove_gone ids report f).1
  unfolding remove_gone
  remove_gone-IsPoisoned [] report f p = p
  remove_gone-IsPoisoned (id ∷ ids) report f p =
      let w = unregister-IsPoisoned id f p in
      let rest =
        remove_gone-IsPoisoned ids (note id (unregister id f).0 report) (unregister id f).1 w in
      elim (Bool-cases (panicked (unregister id f).0)) [ inl e ↦ rw e w | inr e ↦ rw e rest ]

  drop_owned-IsPoisoned :
      (ids : List String) (f : Fabric W) → IsPoisoned f → IsPoisoned (drop_owned ids f).1
  unfolding drop_owned
  drop_owned-IsPoisoned [] f p = p
  drop_owned-IsPoisoned (id ∷ ids) f p =
      let w = unregister-IsPoisoned id f p in
      let rest = drop_owned-IsPoisoned ids (unregister id f).1 w in
      elim (Bool-cases (panicked (unregister id f).0)) [ inl e ↦ rw e w | inr e ↦ rw e rest ]

  sweep-IsPoisoned :
      (stale owned : List String) (f : Fabric W) → IsPoisoned f → IsPoisoned (sweep stale owned f).1
  unfolding sweep
  sweep-IsPoisoned [] owned f p = p
  sweep-IsPoisoned (n ∷ ns) owned f p =
      (Keeps-bind (drop_owned owned) (λ _. pure (n ∷ ns))
          (record { at = drop_owned-IsPoisoned owned }) (λ _. Keeps-pure (n ∷ ns))).at
        f p

  evict_at-IsPoisoned :
      (cutoff : Option ℕ) (f : Fabric W) → IsPoisoned f → IsPoisoned (evict_at cutoff f).1
  unfolding evict_at
  evict_at-IsPoisoned none f p = p
  evict_at-IsPoisoned (some cutoff) f p = sweep-IsPoisoned _ _ _ p

  step-IsPoisoned :
      (horizon : ℕ) (c : Call W) (f : Fabric W) → IsPoisoned f → IsPoisoned (step horizon c f)
  unfolding step heartbeat register_adapter register evict_stale_nodes refresh_local
  step-IsPoisoned horizon (registers r) f p = p
  step-IsPoisoned horizon (unregisters id) f p = unregister-IsPoisoned id f p
  step-IsPoisoned horizon (registers_adapter a) f p = p
  step-IsPoisoned horizon (leases id owner ttl pruned granted) f p =
      lease_exclusive-IsPoisoned horizon id owner ttl pruned granted f p
  step-IsPoisoned horizon (finds q) f p = find_available-IsPoisoned q f p
  step-IsPoisoned horizon (attaches name l now) f p = attach-IsPoisoned name l now f p
  step-IsPoisoned horizon (releases l) f p = release-IsPoisoned l f p
  step-IsPoisoned horizon (renews l ttl pruned renewed) f p =
      renew_lease-IsPoisoned horizon l ttl pruned renewed f p
  step-IsPoisoned horizon (beats node now) f p = p
  step-IsPoisoned horizon (refreshes discovered) f p =
      remove_gone-IsPoisoned _ _ _ (register_added-IsPoisoned _ discovered f p)
  step-IsPoisoned horizon (evicts older_than now) f p = evict_at-IsPoisoned _ f p

  run-IsPoisoned :
      (horizon : ℕ) (cs : List (Call W)) (f : Fabric W)
      → IsPoisoned f
      → IsPoisoned (run horizon cs f)
  unfolding run
  run-IsPoisoned horizon [] f p = p
  run-IsPoisoned horizon (c ∷ cs) f p =
      run-IsPoisoned horizon cs (step horizon c f) (step-IsPoisoned horizon c f p)

  overflow-IsPoisoned :
      (horizon : ℕ) (id owner : String) (ttl pruned granted : ℕ) (f : Fabric W) (r : Resource)
      → get id f.resources ≡ some r
      → is_available r.state ≡ true
      → r.exclusive ≡ true
      → get id f.leases ≡ none
      → horizon < granted + ttl
      → IsPoisoned (lease_exclusive horizon id owner ttl pruned granted f).1
  unfolding lease_exclusive contains_key
  overflow-IsPoisoned horizon id owner ttl pruned granted f r e a x free far =
      ground (arith, get-retain (unexpired pruned) id f.leases)

  poisoned_panics :
      (horizon : ℕ) (id : String) (l : Lease) (q : ResourceRequest) (ttl pruned renewed : ℕ)
      (g : Fabric W)
      → IsPoisoned g
      → ((release l g).0 ≡ panic)
        × ((find_available q g).0 ≡ panic)
        × ((unregister id g).0 ≡ panic)
        × ((renew_lease horizon l ttl pruned renewed g).0 ≡ panic)
  unfolding release find_available unregister renew_lease
  poisoned_panics horizon id l q ttl pruned renewed g p =
      (ground arith, ground arith, ground arith, ground arith)

-- One request for a resource that is registered, available, exclusive and without an entry,
-- whose deadline passes the last instant, poisons the lock: whatever calls come after it, every
-- `release`, `find_available`, `unregister` and `renew_lease` panics.
pub overflow_disables_leasing :
    {W : Type 0} (horizon : ℕ) (id owner : String) (ttl pruned granted : ℕ) (f : Fabric W)
    (r : Resource) (cs : List (Call W)) (l : Lease) (q : ResourceRequest) (ttl' pruned' renewed : ℕ)
    → get id f.resources ≡ some r
    → is_available r.state ≡ true
    → r.exclusive ≡ true
    → get id f.leases ≡ none
    → horizon < granted + ttl
    → let g = run horizon cs (lease_exclusive horizon id owner ttl pruned granted f).1 in
      ((release l g).0 ≡ panic)
      × ((find_available q g).0 ≡ panic)
      × ((unregister id g).0 ≡ panic)
      × ((renew_lease horizon l ttl' pruned' renewed g).0 ≡ panic)
overflow_disables_leasing horizon id owner ttl pruned granted f r cs l q ttl' pruned' renewed e a x
      free far =
    poisoned_panics horizon id l q ttl' pruned' renewed _ (
      run-IsPoisoned horizon cs _
        (overflow-IsPoisoned horizon id owner ttl pruned granted f r e a x free far))
