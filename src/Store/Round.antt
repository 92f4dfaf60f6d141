-- ===== src/Store/Round.antt =====
-- What the store adapter of nauti-fabric/src/store.rs promises: kinds that are read back, an
-- attachment that a release undoes, and a detach that spares another resource's entry.
use nauti_virtualizer.Prelude.{
  ℕ, ◌≡◌, ◌≢◌, refl, ap, ◌∙◌, none, some, [], ◌∷◌, arith, str_eq, eq_refl, str_eq_ne, if◌then◌else◌,
  ◌==◌,
}
use nauti_virtualizer.Resource.{Resource, Lease, Attachment, Result, ok, err, lease_not_found}
use nauti_virtualizer.Store.{
  StoreKind, bind_path, virtio_fs, nfs, parse, as_str, StoreResolution, Host, from_resource,
}
use nauti_virtualizer.Store.Live.{
  Live, find, drop, put, attach, attach_resolved, attach_store, prepare, detach, detach_found,
}

-- A kind is read back from the text that it prints.
pub parse-as_str : (k : StoreKind) → parse (as_str k) ≡ ok k
unfolding parse as_str
parse-as_str bind_path = refl
parse-as_str virtio_fs = refl
parse-as_str nfs = refl

find-drop :
    (id j : ℕ) (live : Live) → find j (drop id live) ≡ (if id == j then none else find j live)
unfolding find drop
find-drop id j [] = ground arith
find-drop id j ((i, s) ∷ live) = ground (arith, find-drop id j live)

find-put :
    (id j : ℕ) (s : StoreResolution) (live : Live)
    → find j (put id s live) ≡ (if id == j then some s else find j live)
unfolding find put
find-put id j s live = ground (arith, find-drop id j live)

resolved_id : (r : Resource) (s : StoreResolution) → from_resource r ≡ ok s → s.resource_id ≡ r.id
unfolding from_resource
resolved_id r s h = ground (arith, h)

attach_store_ok :
    (r : Resource) (lease : Lease) (s : StoreResolution) (p : Result (Unit {0})) (live : Live)
    (a : Attachment) (live' : Live)
    → attach_store r lease s p live ≡ (ok a, live')
    → live' ≡ put lease.id s live
unfolding attach_store
attach_store_ok r lease s (ok done) live a live' h = ground (arith, h)
attach_store_ok r lease s (err e) live a live' h = ground (arith, h)

attach_resolved_ok :
    (h : Host) (r : Resource) (lease : Lease) (o : Result StoreResolution) (live : Live)
    (a : Attachment) (live' : Live)
    → attach_resolved h r lease o live ≡ (ok a, live')
    → (s : StoreResolution) × (o ≡ ok s) × (live' ≡ put lease.id s live)
unfolding attach_resolved
attach_resolved_ok h r lease (err e) live a live' k = ground (arith, k)
attach_resolved_ok h r lease (ok s) live a live' k =
    (s, refl, attach_store_ok r lease s (prepare h s.kind s.path) live a live' k)

detach_same :
    (r : Resource) (lease : Lease) (s : StoreResolution) (live : Live)
    → find lease.id live ≡ some s
    → s.resource_id ≡ r.id
    → detach r lease live ≡ (ok tt, drop lease.id live)
unfolding detach detach_found
detach_same r lease s live h e = rw h ground (arith, ap (λ i. str_eq i r.id) e, eq_refl r.id)

after_put :
    (id j : ℕ) (s : StoreResolution) (live live' : Live)
    → live' ≡ put id s live
    → (if id == j then none else find j live') ≡ (if id == j then none else find j live)
after_put id j s live live' made = ground (arith, ap (find j) made, find-put id j s live)

-- What a lease's attach adds, its release removes. After an attach that succeeded, detaching the same
-- resource for the same lease succeeds, leaves no entry for that lease, and every other entry is
-- what it was before the attach.
pub detach-attach :
    (h : Host) (r : Resource) (lease : Lease) (live : Live) (a : Attachment) (live' : Live)
    → attach h r lease live ≡ (ok a, live')
    → ((detach r lease live').0 ≡ ok tt)
      × ((j : ℕ)
          → find j ((detach r lease live').1) ≡ (if lease.id == j then none else find j live))
unfolding attach
detach-attach h r lease live a live' k =
    let (s, e, made) = attach_resolved_ok h r lease (from_resource r) live a live' k in
    let here : find lease.id live' ≡ some s =
      ap (find lease.id) made ∙ find-put lease.id lease.id s live ∙ ground arith in
    let gone = detach_same r lease s live' here (resolved_id r s e) in
    (
      ap (λ q. q.0) gone,
      λ j.
          ap (λ q. find j (q.1)) gone
          ∙ find-drop lease.id j live'
          ∙ after_put lease.id j s live live' made,
    )

detach_kept :
    (r : Resource) (lease : Lease) (s : StoreResolution) (live : Live)
    → find lease.id live ≡ some s
    → s.resource_id ≢ r.id
    → detach r lease live ≡ (err lease_not_found, put lease.id s (drop lease.id live))
unfolding detach detach_found
detach_kept r lease s live h ne = rw h ground (arith, str_eq_ne s.resource_id r.id ne)

-- A detach that names another resource than the one the lease is attached to is refused, and every
-- lookup finds what it found before.
pub detach_other :
    (r : Resource) (lease : Lease) (s : StoreResolution) (live : Live)
    → find lease.id live ≡ some s
    → s.resource_id ≢ r.id
    → ((detach r lease live).0 ≡ err lease_not_found)
      × ((j : ℕ) → find j ((detach r lease live).1) ≡ find j live)
detach_other r lease s live h ne =
    let e = detach_kept r lease s live h ne in
    (
      ap (λ q. q.0) e,
      λ j.
          ap (λ q. find j (q.1)) e
          ∙ find-put lease.id j s (drop lease.id live)
          ∙ ground (arith, find-drop lease.id j live, h),
    )
