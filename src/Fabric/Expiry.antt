-- ===== src/Fabric/Expiry.antt =====
-- What `unregister`, `find_available` and `release` make of an entry that has expired, and how a
-- failed `detach` leaves the fabric.
use nauti_virtualizer.Prelude.{
  ℕ, ◌+◌, ◌≤◌, String, ◌≡◌, refl, sym, subst, In-keep, true, false, none, some, List, arith,
  eq_refl, In, keep, ◌⊎◌, str_eq, if◌then◌else◌,
}
use nauti_virtualizer.Dict.{Dict, get, contains_key, values, remove, get-remove, get-retain}
use nauti_virtualizer.Resource.{
  Resource, Lease, Result, ResourceRequest, FabricError, is_available, resource_already_leased,
  matches,
}
use nauti_virtualizer.Fabric.{
  Fabric, Adapter, ActiveLease, ok, err, unexpired, new_lease, lease_exclusive, unregister,
  find_available, offered, release,
}

offered_lem :
    (q : ResourceRequest) (ls : Dict ActiveLease) (r : Resource)
    → offered q ls r ≡ true
    → (matches q r ≡ true) × ((r.exclusive ≡ false) ⊎ (get r.id ls ≡ none))
unfolding offered contains_key
offered_lem q ls r h = (ground arith, ground arith)

module _ {W : Type 0} where
  -- On a sound lock, an entry in the lease table blocks `unregister` also after its deadline, at
  -- any time, and leaves the fabric as it was, although `lease_exclusive` would grant the
  -- resource, when it is registered, available and exclusive, to somebody else.
  pub unregister_blocked_by_expired :
      (horizon : ℕ) (id owner : String) (ttl now : ℕ) (f : Fabric W) (r : Resource)
      (a : ActiveLease)
      → get id f.resources ≡ some r
      → is_available r.state ≡ true
      → r.exclusive ≡ true
      → f.leases_poisoned ≡ false
      → get id f.leases ≡ some a
      → a.expires_at ≤ now
      → now + ttl ≤ horizon
      → (unregister id f ≡ (err resource_already_leased, f))
        × ((lease_exclusive horizon id owner ttl now now f).0 ≡ ok (new_lease id owner f))
  unfolding unregister lease_exclusive contains_key
  unregister_blocked_by_expired horizon id owner ttl now f r a e v x sound held late fits =
      (ground arith, ground (arith, get-retain (unexpired now) id f.leases))

  -- Unregistering a resource without an entry in the lease table, on a sound lock, says whether it
  -- was registered, takes it alone out of the registry, and leaves the leases as they were.
  pub unregister_free :
      (id k : String) (f : Fabric W)
      → f.leases_poisoned ≡ false
      → get id f.leases ≡ none
      → ((unregister id f).0 ≡ ok (contains_key id f.resources))
        × (get k (unregister id f).1.resources ≡ (if str_eq id k then none else get k f.resources))
        × ((unregister id f).1.leases ≡ f.leases)
  unfolding unregister contains_key
  unregister_free id k f sound free =
      (ground arith, ground (arith, get-remove id k f.resources), ground arith)

  -- `find_available` lists only resources that match and, where they are exclusive, have no entry in
  -- the lease table, expired or not; it changes nothing.
  pub find_available_sound :
      (q : ResourceRequest) (f : Fabric W) (rs : List Resource) (r : Resource)
      → (find_available q f).0 ≡ ok rs
      → In r rs
      → In r (values f.resources)
        × (matches q r ≡ true)
        × ((r.exclusive ≡ false) ⊎ (get r.id f.leases ≡ none))
        × ((find_available q f).1 ≡ f)
  unfolding find_available contains_key
  find_available_sound q f rs r got listed =
      let e : keep (offered q f.leases) (values f.resources) ≡ rs = ground arith in
      let s = In-keep (offered q f.leases) r (values f.resources) (subst (In r) (sym e) listed) in
      let t : (matches q r ≡ true) × ((r.exclusive ≡ false) ⊎ (get r.id f.leases ≡ none)) =
        offered_lem q f.leases r s.1 in
      (s.0, t.0, t.1, ground arith)

  failed_detach :
      (l : Lease) (f : Fabric W) (r : Resource) (a : ActiveLease) (name : String) (d : Adapter W)
      (e : FabricError)
      → f.leases_poisoned ≡ false
      → get l.resource_id f.leases ≡ some a
      → a.lease.id ≡ l.id
      → get l.resource_id f.resources ≡ some r
      → get l.resource_id f.attachments ≡ some name
      → get name f.adapters ≡ some d
      → (d.detach r l f.world).0 ≡ Result.err e
      → release l f ≡ (
        err e,
        record f {
          attachments = remove l.resource_id f.attachments;
          world = (d.detach r l f.world).1;
        },
      )
  unfolding release
  failed_detach l f r a name d e sound held same found noted known fails = ground arith

  -- Without a note no adapter is asked, and the entry goes.
  release_unattached :
      (l : Lease) (f : Fabric W) (a : ActiveLease)
      → f.leases_poisoned ≡ false
      → get l.resource_id f.leases ≡ some a
      → a.lease.id ≡ l.id
      → get l.resource_id f.attachments ≡ none
      → ((release l f).0 ≡ ok tt)
        × ((release l f).1.world ≡ f.world)
        × (get l.resource_id (release l f).1.leases ≡ none)
  unfolding release
  release_unattached l f a sound held same free = (
    ground arith,
    ground arith,
    ground (arith, get-remove l.resource_id l.resource_id f.leases, eq_refl l.resource_id),
  )

  -- On a sound lock, when the adapter of the attached resource fails to detach, `release` fails,
  -- keeps the lease and drops the note of the attachment, so that the next `release` succeeds
  -- without asking any adapter: what it attached stays attached.
  pub release_after_failed_detach :
      (l : Lease) (f : Fabric W) (r : Resource) (a : ActiveLease) (name : String) (d : Adapter W)
      (e : FabricError)
      → f.leases_poisoned ≡ false
      → get l.resource_id f.leases ≡ some a
      → a.lease.id ≡ l.id
      → get l.resource_id f.resources ≡ some r
      → get l.resource_id f.attachments ≡ some name
      → get name f.adapters ≡ some d
      → (d.detach r l f.world).0 ≡ Result.err e
      → ((release l f).0 ≡ err e)
        × (get l.resource_id (release l f).1.leases ≡ some a)
        × ((release l (release l f).1).0 ≡ ok tt)
        × ((release l (release l f).1).1.world ≡ (d.detach r l f.world).1)
        × (get l.resource_id (release l (release l f).1).1.leases ≡ none)
  unfolding release
  release_after_failed_detach l f r a name d e sound held same found noted known fails =
      rw (failed_detach l f r a name d e sound held same found noted known fails)
        (refl, held, detached.0, detached.1, detached.2)
    where
      g : Fabric W
      g = record f {
        attachments = remove l.resource_id f.attachments;
        world = (d.detach r l f.world).1;
      }

      detached :
          ((release l g).0 ≡ ok tt)
          × ((release l g).1.world ≡ g.world)
          × (get l.resource_id (release l g).1.leases ≡ none)
      detached =
          release_unattached l g a sound held same (rw get-remove (rw (eq_refl l.resource_id)))
