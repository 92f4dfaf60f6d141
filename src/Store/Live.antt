-- ===== src/Store/Live.antt =====
-- `FabricStoreAdapter` of nauti-fabric/src/store.rs: its map of live attachments by lease id, and the
-- two operations on it.
use Prim.Native.String.{◌++◌}
use nauti_virtualizer.Prelude.{
  ℕ, String, true, Option, none, some, List, [], ◌∷◌, str_eq, if◌then◌else◌, ◌==◌, length,
}
use nauti_virtualizer.Resource.{
  Resource, Lease, Attachment, Result, ok, err, adapter_backend_unavailable, lease_not_found,
}
use nauti_virtualizer.Fabric.{Adapter}
use nauti_virtualizer.Store.{
  StoreKind, nfs, StoreResolution, Host, from_resource, as_str, job_path, virtio_fs_spec, unwrap_or,
}

-- `HashMap<u64, StoreResolution>`; a lookup finds the first entry of its key.
abbrev pub Live : Type 0
Live = List (ℕ × StoreResolution)

unfoldable pub find : ℕ → Live → Option StoreResolution
find id [] = none
find id ((j, s) ∷ live) = if j == id then some s else find id live

unfoldable pub drop : ℕ → Live → Live
drop id [] = []
drop id ((j, s) ∷ live) = let rest = drop id live in if j == id then rest else (j, s) ∷ rest

unfoldable pub put : ℕ → StoreResolution → Live → Live
unfolding drop
put id s live = (id, s) ∷ drop id live

unfoldable pub live_count : Live → ℕ
live_count live = length live

unfoldable pub ensure_dir : Host → String → Result (Unit {0})
ensure_dir h path = elim (h.create_dir_all path) [
  | none ↦ ok tt
  | some error ↦
      err (adapter_backend_unavailable "fabric-store" ("cannot create " ++ path ++ ": " ++ error))
]

unfoldable pub prepare : Host → StoreKind → String → Result (Unit {0})
prepare h nfs path = ok tt
prepare h _ path = ensure_dir h path

unfoldable pub attachment : Resource → Lease → StoreResolution → Attachment
attachment r lease s = record {
  resource_id = r.id;
  lease_id = lease.id;
  adapter = "fabric-store";
  details =
      ("store.kind", as_str s.kind)
      ∷ ("store.path", job_path s)
      ∷ ("store.tag", s.tag)
      ∷ ("store.virtio_fs", unwrap_or (virtio_fs_spec s) "")
      ∷ [];
}

-- The part of `attach` behind the reading of the contract.
unfoldable pub attach_store :
    Resource → Lease → StoreResolution → Result (Unit {0}) → Live → Result Attachment × Live
unfolding attachment put
attach_store r lease s (err e) live = (err e, live)
attach_store r lease s (ok done) live = (ok (attachment r lease s), put lease.id s live)

unfoldable pub attach_resolved :
    Host → Resource → Lease → Result StoreResolution → Live → Result Attachment × Live
unfolding attach_store prepare
attach_resolved h r lease (err e) live = (err e, live)
attach_resolved h r lease (ok s) live = attach_store r lease s (prepare h s.kind s.path) live

unfoldable pub attach : Host → Resource → Lease → Live → Result Attachment × Live
unfolding attach_resolved
attach h r lease live = attach_resolved h r lease (from_resource r) live

-- What `detach` does with the entry that `remove` returned.
unfoldable pub detach_found :
    Resource → Lease → Option StoreResolution → Live → Result (Unit {0}) × Live
unfolding put
detach_found r lease none live = (ok tt, live)
detach_found r lease (some s) live =
    if str_eq s.resource_id r.id then (ok tt, live) else (err lease_not_found, put lease.id s live)

unfoldable pub detach : Resource → Lease → Live → Result (Unit {0}) × Live
unfolding detach_found drop find
detach r lease live = detach_found r lease (find lease.id live) (drop lease.id live)

-- The adapter as the fabric sees it. The place of `virtiofsd`, if there is one, is a parameter.
unfoldable pub fabric_store : Host → Option String → Adapter Live
unfolding attach detach unwrap_or
fabric_store h virtiofsd = record {
  name = "fabric-store";
  attach = attach h;
  detach = detach;
  capability_report = λ live. record {
    name = "fabric-store";
    scope = "fabric-store";
    healthy = true;
    detail =
        ("store.bind", "available")
        ∷ ("store.nfs", "explicit-attr-only")
        ∷ ("store.virtiofsd", unwrap_or virtiofsd "missing")
        ∷ [];
  };
}
