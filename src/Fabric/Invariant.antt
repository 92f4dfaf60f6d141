-- ===== src/Fabric/Invariant.antt =====
-- Every method of `Fabric` keeps it valid, whatever the method answers.
use nauti_virtualizer.Prelude.{
  ℕ, ◌+◌, ◌<◌, String, ◌≡◌, refl, true, Option, none, some, List, [], ◌∷◌, arith, Option-cases,
  Bool-cases, inl, inr, ◌==◌, if◌then◌else◌, contains,
}
use nauti_virtualizer.Dict.{get, contains_key, insert, remove}
use nauti_virtualizer.Resource.{Resource, Lease, ResourceRequest}
use nauti_virtualizer.Fabric.{
  Fabric, ActiveLease, u64_mod, instant_add, lock_leases, prune, grant, record_lease, new_lease,
  renew_entry, set_deadline, lease_section, lease_exclusive, register, unregister, find_available,
  attach, release, take_attachment, renew_lease, heartbeat, register_adapter, unexpired, modify,
  pure,
}
use nauti_virtualizer.Fabric.Valid.{
  IsValid, Valid-Sub, Sub-retain, Sub-remove, Valid-register, Valid-unregister, Valid-grant,
  Valid-extend,
}
use nauti_virtualizer.Fabric.Keeps.{
  Keeps, Keeps-bind, Keeps-bind_gets, Keeps-lock, Keeps-pure, keeps_rules, Keeps-call_attach,
  Keeps-detach_named,
}
use nauti_virtualizer.Fabric.Sweep.{
  RefreshReport, note, panicked, register_added, remove_gone, drop_owned, sweep, evict_at,
  refresh_local, evict_stale_nodes,
}
use nauti_virtualizer.Fabric.Step.{
  Call, step, registers, unregisters, registers_adapter, leases, finds, attaches, releases, renews,
  beats, refreshes, evicts,
}

module _ {W : Type 0} where
  prune-IsValid : (now : ℕ) (f : Fabric W) → IsValid f → IsValid (prune now f).1
  unfolding prune
  prune-IsValid now f v = Valid-Sub (Sub-retain (unexpired now) f.leases) v

  next_id :
      (id owner : String) (f : Fabric W)
      → f.next_lease_id + 1 < u64_mod
      → (new_lease id owner f).id ≡ f.next_lease_id + 1
  unfolding new_lease
  next_id id owner f small = omega arith

  record_lease-IsValid :
      (l : Lease) (deadline : Option ℕ) (f : Fabric W)
      → l.id ≡ f.next_lease_id + 1
      → contains_key l.resource_id f.resources ≡ true
      → IsValid f
      → IsValid (record_lease l deadline f).1
  unfolding record_lease
  record_lease-IsValid l none f fresh known v = record {
    resources_keyed = v.resources_keyed;
    leases_keyed = v.leases_keyed;
    leases_registered = v.leases_registered;
    ids_issued = λ k a e. omega (arith, v.ids_issued k a e);
    ids_distinct = v.ids_distinct;
  }
  record_lease-IsValid l (some t) f fresh known v =
      Valid-grant (record { lease = l; expires_at = t }) v known fresh

  grant-IsValid :
      (horizon : ℕ) (id owner : String) (ttl now : ℕ) (f : Fabric W)
      → f.next_lease_id + 1 < u64_mod
      → contains_key id f.resources ≡ true
      → IsValid f
      → IsValid (grant horizon id owner ttl now f).1
  unfolding grant
  grant-IsValid horizon id owner ttl now f small known v =
      record_lease-IsValid (new_lease id owner f) _ f (next_id id owner f small) known v

  lease_section-IsValid :
      (horizon : ℕ) (id owner : String) (ttl pruned granted : ℕ) (f : Fabric W)
      → f.next_lease_id + 1 < u64_mod
      → contains_key id f.resources ≡ true
      → IsValid f
      → IsValid (lease_section horizon id owner ttl pruned granted f).1
  unfolding lease_section
  lease_section-IsValid horizon id owner ttl pruned granted f small known v = ground (
    arith,
    prune-IsValid pruned f v,
    grant-IsValid horizon id owner ttl granted (prune pruned f).1,
  )

  lease_exclusive-IsValid :
      (horizon : ℕ) (id owner : String) (ttl pruned granted : ℕ) (f : Fabric W)
      → f.next_lease_id + 1 < u64_mod
      → IsValid f
      → IsValid (lease_exclusive horizon id owner ttl pruned granted f).1
  unfolding lease_exclusive contains_key
  lease_exclusive-IsValid horizon id owner ttl pruned granted f small v =
      ground (arith, lease_section-IsValid horizon id owner ttl pruned granted f)

  register-IsValid : (r : Resource) (f : Fabric W) → IsValid f → IsValid (register r f).1
  unfolding register
  register-IsValid r f v = Valid-register r v

  unregister-IsValid : (id : String) (f : Fabric W) → IsValid f → IsValid (unregister id f).1
  unfolding unregister contains_key
  unregister-IsValid id f v = elim (Option-cases (get id f.leases)) [
    | inl free ↦ ground (arith, Valid-unregister id free v)
    | inr (a, held) ↦ ground arith
  ]

  find_available-Keeps : (q : ResourceRequest) → Keeps IsValid (find_available {W = W} q)
  unfolding find_available
  find_available-Keeps q = search keeps_rules

  note_attachment :
      (id name : String)
      → Keeps {W = W} IsValid (modify λ f. record f { attachments = insert id name f.attachments })
  note_attachment id name = record { at = λ f v. v }

  attach-Keeps : (name : String) (l : Lease) (now : ℕ) → Keeps IsValid (attach {W = W} name l now)
  unfolding attach
  attach-Keeps name l now = search (keeps_rules, Keeps-call_attach, note_attachment) depth 20

  take_attachment-Keeps : (id : String) → Keeps {W = W} IsValid (take_attachment id)
  unfolding take_attachment
  take_attachment-Keeps id = record { at = λ f v. v }

  forget_lease :
      (id : String) → Keeps {W = W} IsValid (modify λ f. record f { leases = remove id f.leases })
  forget_lease id = record { at = λ f v. Valid-Sub (Sub-remove id f.leases) v }

  release-Keeps : (l : Lease) → Keeps IsValid (release {W = W} l)
  unfolding release
  release-Keeps l =
      search (keeps_rules, Keeps-detach_named, take_attachment-Keeps, forget_lease) depth 20

  set_deadline-IsValid :
      (id : String) (a : ActiveLease) (deadline : Option ℕ) (f : Fabric W)
      → get id f.leases ≡ some a
      → IsValid f
      → IsValid (set_deadline id a deadline f).1
  unfolding set_deadline
  set_deadline-IsValid id a none f e v = v
  set_deadline-IsValid id a (some t) f e v = Valid-extend id a t e v

  renew_entry-IsValid :
      (horizon : ℕ) (l : Lease) (ttl now : ℕ) (o : Option ActiveLease) (f : Fabric W)
      → get l.resource_id f.leases ≡ o
      → IsValid f
      → IsValid (renew_entry horizon l ttl now o f).1
  unfolding renew_entry
  renew_entry-IsValid horizon l ttl now none f e v = v
  renew_entry-IsValid horizon l ttl now (some a) f e v = elim (Bool-cases (a.lease.id == l.id)) [
    | inl same ↦ rw same (set_deadline-IsValid l.resource_id a (instant_add horizon now ttl) f e v)
    | inr other ↦ rw other v
  ]

  renew_lease-Keeps :
      (horizon : ℕ) (l : Lease) (ttl pruned renewed : ℕ)
      → Keeps {W = W} IsValid (renew_lease horizon l ttl pruned renewed)
  unfolding renew_lease
  renew_lease-Keeps horizon l ttl pruned renewed = Keeps-bind lock_leases _ Keeps-lock λ _.
      Keeps-bind (prune pruned) _ (record { at = prune-IsValid pruned })
        λ _.
          Keeps-bind_gets (λ f. get l.resource_id f.leases) (renew_entry horizon l ttl renewed)
            λ f v. renew_entry-IsValid horizon l ttl renewed (get l.resource_id f.leases) f refl v

  register_added-IsValid :
      (added : List String) (rs : List Resource) (f : Fabric W)
      → IsValid f
      → IsValid (register_added added rs f).1
  unfolding register_added
  register_added-IsValid added [] f v = v
  register_added-IsValid added (r ∷ rs) f v =
      register_added-IsValid added rs (if contains added r.id then (register r f).1 else f)
        (ground (arith, register-IsValid r f v))

  remove_gone-IsValid :
      (ids : List String) (report : RefreshReport) (f : Fabric W)
      → IsValid f
      → IsValid (remove_gone ids report f).1
  unfolding remove_gone
  remove_gone-IsValid [] report f v = v
  remove_gone-IsValid (id ∷ ids) report f v =
      let g = (unregister id f).1 in
      let w = unregister-IsValid id f v in
      let rest = remove_gone-IsValid ids (note id (unregister id f).0 report) g w in
      elim (Bool-cases (panicked (unregister id f).0)) [ inl e ↦ rw e w | inr e ↦ rw e rest ]

  refresh_local-IsValid :
      (discovered : List Resource) (f : Fabric W)
      → IsValid f
      → IsValid (refresh_local discovered f).1
  unfolding refresh_local
  refresh_local-IsValid discovered f v =
      remove_gone-IsValid _ _ _ (register_added-IsValid _ discovered f v)

  drop_owned-IsValid : (ids : List String) (f : Fabric W) → IsValid f → IsValid (drop_owned ids f).1
  unfolding drop_owned
  drop_owned-IsValid [] f v = v
  drop_owned-IsValid (id ∷ ids) f v =
      let g = (unregister id f).1 in
      let w = unregister-IsValid id f v in
      let rest = drop_owned-IsValid ids g w in
      elim (Bool-cases (panicked (unregister id f).0)) [ inl e ↦ rw e w | inr e ↦ rw e rest ]

  sweep-IsValid :
      (stale owned : List String) (f : Fabric W) → IsValid f → IsValid (sweep stale owned f).1
  unfolding sweep
  sweep-IsValid [] owned f v = v
  sweep-IsValid (n ∷ ns) owned f v =
      (Keeps-bind (drop_owned owned) (λ _. pure (n ∷ ns)) (record { at = drop_owned-IsValid owned })
          (λ _. Keeps-pure (n ∷ ns))).at
        f v

  evict_at-IsValid : (cutoff : Option ℕ) (f : Fabric W) → IsValid f → IsValid (evict_at cutoff f).1
  unfolding evict_at
  evict_at-IsValid none f v = v
  evict_at-IsValid (some cutoff) f v = sweep-IsValid _ _ _ v

  evict-IsValid :
      (older_than now : ℕ) (f : Fabric W)
      → IsValid f
      → IsValid (evict_stale_nodes older_than now f).1
  unfolding evict_stale_nodes
  evict-IsValid older_than now f v = evict_at-IsValid _ f v

-- Every call keeps the fabric valid, whatever it answers, while lease numbers are left: entries
-- stand under their own keys, every leased resource is registered, and no two leases share a number.
pub step-IsValid :
    {W : Type 0} (horizon : ℕ) (c : Call W) (f : Fabric W)
    → f.next_lease_id + 1 < u64_mod
    → IsValid f
    → IsValid (step horizon c f)
unfolding step heartbeat register_adapter
step-IsValid horizon (registers r) f small v = register-IsValid r f v
step-IsValid horizon (unregisters id) f small v = unregister-IsValid id f v
step-IsValid horizon (registers_adapter a) f small v = v
step-IsValid horizon (leases id owner ttl pruned granted) f small v =
    lease_exclusive-IsValid horizon id owner ttl pruned granted f small v
step-IsValid horizon (finds q) f small v = (find_available-Keeps q).at f v
step-IsValid horizon (attaches name l now) f small v = (attach-Keeps name l now).at f v
step-IsValid horizon (releases l) f small v = (release-Keeps l).at f v
step-IsValid horizon (renews l ttl pruned renewed) f small v =
    (renew_lease-Keeps horizon l ttl pruned renewed).at f v
step-IsValid horizon (beats node now) f small v = v
step-IsValid horizon (refreshes discovered) f small v = refresh_local-IsValid discovered f v
step-IsValid horizon (evicts older_than now) f small v = evict-IsValid older_than now f v
