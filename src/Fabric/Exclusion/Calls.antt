-- ===== src/Fabric/Exclusion/Calls.antt =====
-- Each call of `Fabric` of nauti-fabric/src/lib.rs that spares a lease leaves it in place.
use nauti_virtualizer.Prelude.{
  ℕ, ◌+◌, ◌≤◌, ◌<◌, String, ◌≡◌, ◌≢◌, refl, ap, false, Option, none, some, List, [], ◌∷◌, arith,
  eq_iff, str_eq, if◌then◌else◌, contains, Bool-cases, inl, inr,
}
use nauti_virtualizer.Dict.{get, contains_key, kept, insert, get-insert, get-remove, get-retain}
use nauti_virtualizer.Resource.{Resource, Lease, ResourceRequest}
use nauti_virtualizer.Fabric.{
  Fabric, ActiveLease, lock_leases, prune, unexpired, record_lease, new_lease, lease_section,
  lease_exclusive, register, unregister, find_available, attach, release, release_check,
  release_detach, release_remove, take_attachment, renew_lease, renew_entry, set_deadline, modify,
  pure, instant_add,
}
use nauti_virtualizer.Fabric.Keeps.{
  Keeps, Keeps-bind, Keeps-pure, Keeps-bind_gets, Keeps-lock, keeps_rules, Keeps-call_attach,
  Keeps-detach_named,
}
use nauti_virtualizer.Fabric.Sweep.{
  RefreshReport, note, panicked, register_added, remove_gone, refresh_local, drop_owned, sweep,
  evict_at,
}
use nauti_virtualizer.Fabric.Step.{Call, leases, releases, renews}

-- The entry is the lease `l`, with a deadline no earlier than `t`.
abbrev pub Covers : Lease → ℕ → Option ActiveLease → Type 0
Covers l t none = ⊥
Covers l t (some a) = (a.lease ≡ l) × (t ≤ a.expires_at)

abbrev pub Holds : {W : Type 0} → Lease → ℕ → Fabric W → Type 0
Holds l t f = Covers l t (get l.resource_id f.leases)

-- The calls that leave `l` alone before `t`: the clock has not reached `t` where a call prunes, the
-- lease is not released, and where it is renewed its deadline does not move below `t`.
abbrev pub Spares : {W : Type 0} → Lease → ℕ → Call W → Type 0
Spares l t (leases id owner ttl pruned granted) = pruned < t
Spares l t (releases m) = (m.resource_id ≡ l.resource_id) → m.id ≢ l.id
Spares l t (renews m ttl pruned renewed) =
    (pruned < t) × (m.resource_id ≡ l.resource_id → t ≤ renewed + ttl)
Spares l t _ = Unit {0}

abbrev pub AllSpare : {W : Type 0} → Lease → ℕ → List (Call W) → Type 0
AllSpare l t [] = Unit {0}
AllSpare l t (c ∷ cs) = Spares l t c × AllSpare l t cs

Covers-kept :
    (l : Lease) (t : ℕ) (now : ℕ) (o : Option ActiveLease)
    → now < t
    → Covers l t o
    → Covers l t (kept (unexpired now) o)
unfolding unexpired
Covers-kept l t now none early h = h
Covers-kept l t now (some a) early h = ground arith

module _ {W : Type 0} (l : Lease) (t : ℕ) where
  pub prune-Holds : (now : ℕ) (f : Fabric W) → now < t → Holds l t f → Holds l t (prune now f).1
  unfolding prune
  prune-Holds now f early h = rw get-retain (Covers-kept l t now _ early h)

  record_lease-Holds :
      (m : Lease) (deadline : Option ℕ) (f : Fabric W)
      → contains_key m.resource_id f.leases ≡ false
      → Holds l t f
      → Holds l t (record_lease m deadline f).1
  unfolding record_lease contains_key
  record_lease-Holds m none f free h = h
  record_lease-Holds m (some d) f free h = ground (
    arith,
    get-insert m.resource_id l.resource_id (record { lease = m; expires_at = d }) f.leases,
    eq_iff m.resource_id l.resource_id,
  )

  lease_section-Holds :
      (horizon : ℕ) (id owner : String) (ttl pruned granted : ℕ) (f : Fabric W)
      → pruned < t
      → Holds l t f
      → Holds l t (lease_section horizon id owner ttl pruned granted f).1
  unfolding lease_section
  lease_section-Holds horizon id owner ttl pruned granted f early h = ground (
    arith,
    prune-Holds pruned f early h,
    record_lease-Holds (new_lease id owner (prune pruned f).1) (instant_add horizon granted ttl)
        (prune pruned f).1,
  )

  pub lease_exclusive-Holds :
      (horizon : ℕ) (id owner : String) (ttl pruned granted : ℕ) (f : Fabric W)
      → pruned < t
      → Holds l t f
      → Holds l t (lease_exclusive horizon id owner ttl pruned granted f).1
  unfolding lease_exclusive
  lease_exclusive-Holds horizon id owner ttl pruned granted f early h =
      ground (arith, lease_section-Holds horizon id owner ttl pruned granted f early h)

  pub unregister-Keeps : (id : String) → Keeps {W = W} (Holds l t) (unregister id)
  unfolding unregister
  unregister-Keeps id = record { at = λ f h. ground arith }

  pub find_available-Keeps : (q : ResourceRequest) → Keeps {W = W} (Holds l t) (find_available q)
  unfolding find_available
  find_available-Keeps q = search keeps_rules

  note_attachment :
      (id name : String)
      → Keeps {W = W}
          (Holds l t)
          (modify λ f. record f { attachments = insert id name f.attachments })
  note_attachment id name = record { at = λ f h. h }

  pub attach-Keeps :
      (name : String) (m : Lease) (now : ℕ) → Keeps {W = W} (Holds l t) (attach name m now)
  unfolding attach
  attach-Keeps name m now = search (keeps_rules, Keeps-call_attach, note_attachment) depth 20

  take_attachment-Keeps : (id : String) → Keeps {W = W} (Holds l t) (take_attachment id)
  unfolding take_attachment
  take_attachment-Keeps id = record { at = λ f h. h }

  release_detach-Keeps : (m : Lease) → Keeps {W = W} (Holds l t) (release_detach m)
  unfolding release_detach
  release_detach-Keeps m = search (keeps_rules, Keeps-detach_named, take_attachment-Keeps) depth 20

  release_remove-Holds :
      (m : Lease) (f : Fabric W)
      → (m.resource_id ≡ l.resource_id → m.id ≢ l.id)
      → Holds l t f
      → Holds l t (release_remove m f).1
  unfolding release_remove
  release_remove-Holds m f other h = elim (Bool-cases (str_eq m.resource_id l.resource_id)) [
    | inl same ↦
        let e : m.resource_id ≡ l.resource_id = (eq_iff _ _).0 same in
        ground (arith, ap (λ k. get k f.leases) e, other e)
    | inr apart ↦ ground (arith, get-remove m.resource_id l.resource_id f.leases)
  ]

  release_check-Keeps : (m : Lease) → Keeps {W = W} (Holds l t) (release_check m)
  unfolding release_check
  release_check-Keeps m = search keeps_rules

  pub release-Keeps :
      (m : Lease) → Spares {W = W} l t (releases m) → Keeps {W = W} (Holds l t) (release m)
  unfolding release
  release-Keeps m other = Keeps-bind (release_check m) _ (release_check-Keeps m) λ _.
      Keeps-bind (release_detach m) _ (release_detach-Keeps m)
        λ _. record { at = λ f h. release_remove-Holds m f other h }

  set_deadline-Holds :
      (id : String) (a : ActiveLease) (deadline : ℕ) (f : Fabric W)
      → get id f.leases ≡ some a
      → (id ≡ l.resource_id → t ≤ deadline)
      → Holds l t f
      → Holds l t (set_deadline id a (some deadline) f).1
  unfolding set_deadline
  set_deadline-Holds id a deadline f e later h = elim (Bool-cases (str_eq id l.resource_id)) [
    | inl same ↦
        let p : id ≡ l.resource_id = (eq_iff _ _).0 same in
        ground (
          arith,
          ap (λ k. get k f.leases) p,
          later p,
          get-insert id l.resource_id (record a { expires_at = deadline }) f.leases,
        )
    | inr apart ↦
        ground (arith, get-insert id l.resource_id (record a { expires_at = deadline }) f.leases)
  ]

  renew_entry-Holds :
      (horizon : ℕ) (m : Lease) (ttl now : ℕ) (o : Option ActiveLease) (f : Fabric W)
      → get m.resource_id f.leases ≡ o
      → (m.resource_id ≡ l.resource_id → t ≤ now + ttl)
      → Holds l t f
      → Holds l t (renew_entry horizon m ttl now o f).1
  unfolding renew_entry
  renew_entry-Holds horizon m ttl now none f e later h = h
  renew_entry-Holds horizon m ttl now (some a) f e later h =
      ground (arith, set_deadline-Holds m.resource_id a (now + ttl) f e later h)

  pub renew_lease-Keeps :
      (horizon : ℕ) (m : Lease) (ttl pruned renewed : ℕ)
      → Spares {W = W} l t (renews m ttl pruned renewed)
      → Keeps {W = W} (Holds l t) (renew_lease horizon m ttl pruned renewed)
  unfolding renew_lease
  renew_lease-Keeps horizon m ttl pruned renewed spares = Keeps-bind lock_leases _ Keeps-lock λ _.
      Keeps-bind (prune pruned) _ (record { at = λ f. prune-Holds pruned f spares.0 })
        λ _.
          Keeps-bind_gets (λ f. get m.resource_id f.leases) (renew_entry horizon m ttl renewed)
            λ f h.
              renew_entry-Holds horizon m ttl renewed (get m.resource_id f.leases) f refl spares.1 h

  register_added-Holds :
      (added : List String) (rs : List Resource) (f : Fabric W)
      → Holds l t f
      → Holds l t (register_added added rs f).1
  unfolding register_added register
  register_added-Holds added [] f h = h
  register_added-Holds added (r ∷ rs) f h =
      register_added-Holds added rs (if contains added r.id then (register r f).1 else f)
        (ground arith)

  remove_gone-Holds :
      (ids : List String) (report : RefreshReport) (f : Fabric W)
      → Holds l t f
      → Holds l t (remove_gone ids report f).1
  unfolding remove_gone
  remove_gone-Holds [] report f h = h
  remove_gone-Holds (id ∷ ids) report f h =
      let g = (unregister id f).1 in
      let w = (unregister-Keeps id).at f h in
      let rest = remove_gone-Holds ids (note id (unregister id f).0 report) g w in
      elim (Bool-cases (panicked (unregister id f).0)) [ inl e ↦ rw e w | inr e ↦ rw e rest ]

  pub refresh_local-Holds :
      (discovered : List Resource) (f : Fabric W)
      → Holds l t f
      → Holds l t (refresh_local discovered f).1
  unfolding refresh_local
  refresh_local-Holds discovered f h =
      remove_gone-Holds _ _ _ (register_added-Holds _ discovered f h)

  drop_owned-Holds :
      (ids : List String) (f : Fabric W) → Holds l t f → Holds l t (drop_owned ids f).1
  unfolding drop_owned
  drop_owned-Holds [] f h = h
  drop_owned-Holds (id ∷ ids) f h =
      let g = (unregister id f).1 in
      let w = (unregister-Keeps id).at f h in
      let rest = drop_owned-Holds ids g w in
      elim (Bool-cases (panicked (unregister id f).0)) [ inl e ↦ rw e w | inr e ↦ rw e rest ]

  sweep-Holds :
      (stale owned : List String) (f : Fabric W) → Holds l t f → Holds l t (sweep stale owned f).1
  unfolding sweep
  sweep-Holds [] owned f h = h
  sweep-Holds (n ∷ ns) owned f h =
      (Keeps-bind (drop_owned owned) (λ _. pure (n ∷ ns)) (record { at = drop_owned-Holds owned })
          (λ _. Keeps-pure (n ∷ ns))).at
        f h

  pub evict_at-Holds :
      (cutoff : Option ℕ) (f : Fabric W) → Holds l t f → Holds l t (evict_at cutoff f).1
  unfolding evict_at
  evict_at-Holds none f h = h
  evict_at-Holds (some cutoff) f h = sweep-Holds _ _ _ h
