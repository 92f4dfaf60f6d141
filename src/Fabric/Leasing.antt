-- ===== src/Fabric/Leasing.antt =====
-- When `lease_exclusive`, `renew_lease`, `attach` and `unregister` succeed, and what each leaves.
use nauti_virtualizer.Prelude.{
  ℕ, ◌+◌, ◌≤◌, ◌<◌, String, ◌≡◌, ◌≢◌, ◌↔◌, ◌⊎◌, true, false, none, some, arith, eq_refl, str_eq,
  if◌then◌else◌, Option-cases, inl, inr,
}
use nauti_virtualizer.Dict.{get, contains_key, kept, retain, get-insert, get-retain}
use nauti_virtualizer.Resource.{Resource, Lease, Attachment, Result, is_available, lease_not_found}
use nauti_virtualizer.Fabric.{
  Fabric, Adapter, ActiveLease, ok, err, unexpired, new_lease, lease_exclusive, attach, renew_lease,
}

-- What a grant needs: a registered, available, exclusive resource, a lock that is not poisoned, no
-- entry that has not expired, and a deadline that the platform can represent.
pub record Leasable {W : Type 0} (horizon : ℕ) (id : String) (ttl pruned granted : ℕ) (f : Fabric W)
    : Type 0 where
  pub resource : Resource
  pub registered : get id f.resources ≡ some resource
  pub available : is_available resource.state ≡ true
  pub exclusive : resource.exclusive ≡ true
  pub unpoisoned : f.leases_poisoned ≡ false
  pub free : get id (retain (unexpired pruned) f.leases) ≡ none
  pub representable : granted + ttl ≤ horizon

module _ {W : Type 0} (horizon : ℕ) (id owner : String) (ttl pruned granted : ℕ)
    (f : Fabric W) where
  pub lease_of_Leasable :
      Leasable horizon id ttl pruned granted f
      → (lease_exclusive horizon id owner ttl pruned granted f).0 ≡ ok (new_lease id owner f)
  unfolding lease_exclusive contains_key
  lease_of_Leasable c =
      ground (arith, c.registered, c.available, c.exclusive, c.unpoisoned, c.free, c.representable)

  pub Leasable-of_lease :
      (m : Lease)
      → (lease_exclusive horizon id owner ttl pruned granted f).0 ≡ ok m
      → Leasable horizon id ttl pruned granted f
  unfolding lease_exclusive contains_key
  Leasable-of_lease m got = elim (Option-cases (get id f.resources)) [
    | inl missing ↦ absurd (ground arith)
    | inr (r, e) ↦ record {
      resource = r;
      registered = e;
      available = ground arith;
      exclusive = ground arith;
      unpoisoned = ground arith;
      free = ground arith;
      representable = ground arith;
    }
  ]

  -- `lease_exclusive` answers with the lease of the next number exactly when the resource is
  -- registered, available and exclusive, the lock is sound, no unexpired entry stands for it,
  -- and the deadline can be represented.
  pub lease_exclusive_iff :
      ((lease_exclusive horizon id owner ttl pruned granted f).0 ≡ ok (new_lease id owner f))
      ↔ Leasable horizon id ttl pruned granted f
  lease_exclusive_iff = (Leasable-of_lease (new_lease id owner f), lease_of_Leasable)

  -- A grant changes the entry of its resource alone: it prunes what had expired at `pruned`, adds
  -- the new entry, counts one number, and leaves the registry and the attachments as they were.
  pub lease_exclusive_effect :
      (k : String)
      → Leasable horizon id ttl pruned granted f
      → let g = (lease_exclusive horizon id owner ttl pruned granted f).1 in
        (get k g.leases ≡ (
          if str_eq id k
          then some (record { lease = new_lease id owner f; expires_at = granted + ttl })
          else kept (unexpired pruned) (get k f.leases)))
        × (g.next_lease_id ≡ (new_lease id owner f).id)
        × (g.resources ≡ f.resources)
        × (g.attachments ≡ f.attachments)
        × (g.leases_poisoned ≡ false)
  unfolding lease_exclusive contains_key
  lease_exclusive_effect k c = ground (
    arith,
    c.registered,
    c.available,
    c.exclusive,
    c.unpoisoned,
    c.free,
    c.representable,
    get-insert id k (record { lease = new_lease id owner f; expires_at = granted + ttl })
        (retain (unexpired pruned) f.leases),
    get-retain (unexpired pruned) k f.leases,
  )

module _ {W : Type 0} where
  -- On a sound lock, a renewal of the lease that is in place and has not expired, to a deadline
  -- that can be represented, succeeds: it answers that lease, with its number and owner, and
  -- moves its deadline to `renewed + ttl`.
  pub renew_lease_ok :
      (horizon : ℕ) (l : Lease) (ttl pruned renewed : ℕ) (f : Fabric W) (a : ActiveLease)
      → f.leases_poisoned ≡ false
      → get l.resource_id f.leases ≡ some a
      → a.lease.id ≡ l.id
      → pruned < a.expires_at
      → renewed + ttl ≤ horizon
      → ((renew_lease horizon l ttl pruned renewed f).0 ≡ ok a.lease)
        × (get l.resource_id (renew_lease horizon l ttl pruned renewed f).1.leases
            ≡ some (record a { expires_at = renewed + ttl }))
  unfolding renew_lease
  renew_lease_ok horizon l ttl pruned renewed f a sound found same live fits = ground (
    arith,
    get-retain (unexpired pruned) l.resource_id f.leases,
    eq_refl l.resource_id,
    get-insert l.resource_id l.resource_id (record a { expires_at = renewed + ttl })
        (retain (unexpired pruned) f.leases),
  )

  -- On a sound lock, a renewal of a lease that is not the one in place, or that has expired,
  -- finds no lease.
  pub renew_lease_refused :
      (horizon : ℕ) (l : Lease) (ttl pruned renewed : ℕ) (f : Fabric W) (a : ActiveLease)
      → f.leases_poisoned ≡ false
      → get l.resource_id f.leases ≡ some a
      → (a.lease.id ≢ l.id) ⊎ (a.expires_at ≤ pruned)
      → (renew_lease horizon l ttl pruned renewed f).0 ≡ err lease_not_found
  unfolding renew_lease
  renew_lease_refused horizon l ttl pruned renewed f a sound found (inl other) =
      ground (arith, get-retain (unexpired pruned) l.resource_id f.leases)
  renew_lease_refused horizon l ttl pruned renewed f a sound found (inr late) =
      ground (arith, get-retain (unexpired pruned) l.resource_id f.leases)

  -- The tests of `attach` that come before the adapter is asked.
  pub record Attachable (name : String) (l : Lease) (now : ℕ) (f : Fabric W) : Type 0 where
    pub resource : Resource
    pub registered : get l.resource_id f.resources ≡ some resource
    pub unpoisoned : f.leases_poisoned ≡ false
    pub entry : ActiveLease
    pub leased : get l.resource_id f.leases ≡ some entry
    pub same : entry.lease.id ≡ l.id
    pub live : now < entry.expires_at
    pub adapter : Adapter W
    pub known : get name f.adapters ≡ some adapter
    pub attachment : Attachment
    pub accepted : (adapter.attach resource l f.world).0 ≡ Result.ok attachment

  -- A successful `attach` answers what the adapter answered, notes the adapter under the resource,
  -- takes over the adapter's new state, and leaves the leases alone.
  pub attach_of_Attachable :
      (name : String) (l : Lease) (now : ℕ) (f : Fabric W) (c : Attachable name l now f)
      → ((attach name l now f).0 ≡ ok c.attachment)
        × (get l.resource_id (attach name l now f).1.attachments ≡ some name)
        × ((attach name l now f).1.world ≡ (c.adapter.attach c.resource l f.world).1)
        × ((attach name l now f).1.leases ≡ f.leases)
  unfolding attach
  attach_of_Attachable name l now f c = ground (
    arith,
    c.registered,
    c.unpoisoned,
    c.leased,
    c.same,
    c.live,
    c.known,
    c.accepted,
    get-insert l.resource_id l.resource_id name f.attachments,
    eq_refl l.resource_id,
  )

  Attachable-of_attach :
      (name : String) (l : Lease) (now : ℕ) (f : Fabric W) (x : Attachment)
      → (attach name l now f).0 ≡ ok x
      → Attachable name l now f
  unfolding attach
  Attachable-of_attach name l now f x got = elim (Option-cases (get l.resource_id f.resources)) [
    | inl missing ↦ absurd (ground arith)
    | inr (r, e) ↦ elim (Option-cases (get l.resource_id f.leases)) [
      | inl free ↦ absurd (ground arith)
      | inr (a, held) ↦ elim (Option-cases (get name f.adapters)) [
        | inl unknown ↦ absurd (ground arith)
        | inr (d, known) ↦ record {
          resource = r;
          registered = e;
          unpoisoned = ground arith;
          entry = a;
          leased = held;
          same = ground arith;
          live = ground arith;
          adapter = d;
          known = known;
          attachment = x;
          accepted = ground arith;
        }
      ]
    ]
  ]

  -- `attach` succeeds exactly when the resource is registered, the lock is sound, the caller's lease
  -- is the entry in place and has not expired, the named adapter is known, and it accepts.
  pub attach_iff :
      (name : String) (l : Lease) (now : ℕ) (f : Fabric W)
      → ((x : Attachment) × ((attach name l now f).0 ≡ ok x)) ↔ Attachable name l now f
  attach_iff name l now f = (
    λ x. Attachable-of_attach name l now f x.0 x.1,
    λ c. (c.attachment, (attach_of_Attachable name l now f c).0),
  )
