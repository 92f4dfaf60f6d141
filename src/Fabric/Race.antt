-- ===== src/Fabric/Race.antt =====
-- The guard on `leases` is dropped inside `unregister`, between the test and the removal. The
-- critical sections of two threads, taken in the order in which that matters.
use nauti_virtualizer.Prelude.{
  ℕ, ◌+◌, String, ◌≡◌, refl, true, false, none, some, arith, eq_refl, str_eq, if◌then◌else◌,
}
use nauti_virtualizer.Dict.{get, contains_key, contains_key-some, kept, get-remove}
use nauti_virtualizer.Resource.{Lease, resource_not_found}
use nauti_virtualizer.Fabric.{
  Fabric, ok, err, unexpired, new_lease, lease_exclusive, unregister_check, unregister_remove,
  attach,
}
use nauti_virtualizer.Fabric.Leasing.{Leasable, lease_exclusive_iff, lease_exclusive_effect}

module _ {W : Type 0} where
  check_state : (id : String) (f : Fabric W) → (unregister_check id f).1 ≡ f
  unfolding unregister_check
  check_state id f = ground arith

  check_passes :
      (id : String) (f : Fabric W)
      → f.leases_poisoned ≡ false
      → get id f.leases ≡ none
      → (unregister_check id f).0 ≡ ok tt
  unfolding unregister_check contains_key
  check_passes id f sound free = ground arith

  removed_registered :
      (id : String) (f : Fabric W)
      → contains_key id f.resources ≡ true
      → ((unregister_remove id f).0 ≡ ok true)
        × ((unregister_remove id f).1.leases ≡ f.leases)
        × (get id (unregister_remove id f).1.resources ≡ none)
  unfolding unregister_remove
  removed_registered id f known =
      (ground arith, refl, ground (arith, get-remove id id f.resources, eq_refl id))

  attach_unregistered :
      (name : String) (l : Lease) (now : ℕ) (f : Fabric W)
      → get l.resource_id f.resources ≡ none
      → (attach name l now f).0 ≡ err resource_not_found
  unfolding attach
  attach_unregistered name l now f missing = ground arith

  -- A resource with no entry is being unregistered by one thread; another leases it between the test
  -- and the removal. Both succeed, and the lease stands for a resource that is gone: every `attach`
  -- under it, whatever the adapter and the time, finds no resource.
  pub unregister_orphans_lease :
      (horizon : ℕ) (id owner name : String) (ttl pruned granted now : ℕ) (f : Fabric W)
      → Leasable horizon id ttl pruned granted f
      → get id f.leases ≡ none
      → let checked = unregister_check id f in
        let leased = lease_exclusive horizon id owner ttl pruned granted checked.1 in
        let removed = unregister_remove id leased.1 in
        (checked.0 ≡ ok tt)
        × (leased.0 ≡ ok (new_lease id owner f))
        × (removed.0 ≡ ok true)
        × (get id removed.1.leases
            ≡ some (record { lease = new_lease id owner f; expires_at = granted + ttl }))
        × ((attach name (new_lease id owner f) now removed.1).0 ≡ err resource_not_found)
  unfolding new_lease
  unregister_orphans_lease horizon id owner name ttl pruned granted now f c free =
      rw (check_state id f) (
        check_passes id f c.unpoisoned free,
        (lease_exclusive_iff horizon id owner ttl pruned granted f).1 c,
        gone.0,
        ground (arith, gone.1, effect.0, eq_refl id),
        attach_unregistered name (new_lease id owner f) now (unregister_remove id leased).1 gone.2,
      )
    where
      leased : Fabric W
      leased = (lease_exclusive horizon id owner ttl pruned granted f).1

      effect :
          (get id leased.leases ≡ (
            if str_eq id id
            then some (record { lease = new_lease id owner f; expires_at = granted + ttl })
            else kept (unexpired pruned) (get id f.leases)))
          × (leased.next_lease_id ≡ (new_lease id owner f).id)
          × (leased.resources ≡ f.resources)
          × (leased.attachments ≡ f.attachments)
          × (leased.leases_poisoned ≡ false)
      effect = lease_exclusive_effect horizon id owner ttl pruned granted f id c

      gone :
          ((unregister_remove id leased).0 ≡ ok true)
          × ((unregister_remove id leased).1.leases ≡ leased.leases)
          × (get id (unregister_remove id leased).1.resources ≡ none)
      gone =
          removed_registered id leased (rw effect.2 (contains_key-some id f.resources c.registered))
