-- ===== src/Store.antt =====
-- The shared store of nauti-fabric/src/store.rs: the contract that a resource carries, and the
-- adapter that keeps its live attachments by lease. `create_dir_all` of the standard library is a
-- field of `Host`, which answers with the error's text. A path is its text. The mutex of the live
-- attachments is never poisoned, since no code under its guard panics.
use Prim.Native.String.{◌++◌}
use nauti_virtualizer.Prelude.{
  ℕ, String, Bool, true, false, Option, none, some, List, [], ◌∷◌, str_eq, if◌then◌else◌, ◌==◌,
  ◌&&◌,
}
use nauti_virtualizer.Dict.{Dict, get}
use nauti_virtualizer.Resource.{
  Resource, ResourceKind, FabricError, Lease, Attachment, Result, ok, err, bind, ok_or, same_kind,
  storage, available, incompatible_resource_kind, missing_resource_attribute,
  adapter_backend_unavailable, lease_not_found,
}
pub mod Live
pub mod Round

pub data StoreKind : Type 0 where
  bind_path virtio_fs nfs : StoreKind

unfoldable pub parse : String → Result StoreKind
parse raw =
    if str_eq raw "bind"
    then ok bind_path
    else if str_eq raw "virtio-fs"
    then ok virtio_fs
    else if str_eq raw "virtiofs"
    then ok virtio_fs
    else if str_eq raw "fs"
    then ok virtio_fs
    else if str_eq raw "nfs"
    then ok nfs
    else err (
        missing_resource_attribute
          ("store.kind (unknown " ++ raw ++ "; expected bind|virtio-fs|nfs)"))

unfoldable pub as_str : StoreKind → String
as_str bind_path = "bind"
as_str virtio_fs = "virtio-fs"
as_str nfs = "nfs"

pub record StoreResolution : Type 0 where
  pub resource_id : String
  pub kind : StoreKind
  pub path : String
  pub tag : String
  pub socket : Option String
  pub nfs_export : Option String

unfoldable pub unwrap_or : Option String → String → String
unwrap_or none d = d
unwrap_or (some s) d = s

-- The two refusals that depend on the kind.
unfoldable pub check_kind : StoreKind → Option String → Option String → Result (Unit {0})
check_kind nfs socket none = err (missing_resource_attribute "store.nfs_export")
check_kind virtio_fs none nfs_export = err (missing_resource_attribute "store.socket")
check_kind _ socket nfs_export = ok tt

unfoldable pub from_resource : Resource → Result StoreResolution
from_resource r =
    if same_kind r.kind storage
    then (bind (parse (unwrap_or (get "store.kind" r.attributes) "bind")) λ kind.
        bind (ok_or (get "store.path" r.attributes) (missing_resource_attribute "store.path"))
          λ path.
            bind
              (check_kind kind (get "store.socket" r.attributes)
                (get "store.nfs_export" r.attributes))
              λ checked. ok (record {
                resource_id = r.id;
                kind = kind;
                path = path;
                tag = unwrap_or (get "store.tag" r.attributes) "nauti";
                socket = get "store.socket" r.attributes;
                nfs_export = get "store.nfs_export" r.attributes;
              }))
    else err (incompatible_resource_kind "fabric-store" storage r.kind)

unfoldable pub fs_spec : StoreKind → String → Option String → Option String
fs_spec virtio_fs tag (some socket) = some ("tag=" ++ tag ++ ",socket=" ++ socket)
fs_spec _ tag socket = none

unfoldable pub virtio_fs_spec : StoreResolution → Option String
unfolding fs_spec
virtio_fs_spec s = fs_spec s.kind s.tag s.socket

unfoldable pub path_of : StoreKind → Option String → String → String
unfolding unwrap_or
path_of nfs nfs_export path = unwrap_or nfs_export path
path_of _ nfs_export path = path

unfoldable pub job_path : StoreResolution → String
unfolding path_of
job_path s = path_of s.kind s.nfs_export s.path

unfoldable pub default_store_resource : String → Resource
default_store_resource node = record {
  id = "local.store.fabric";
  kind = storage;
  capacity = 1;
  unit = "store";
  node = node;
  state = available;
  exclusive = true;
  attributes =
      ("store.kind", "bind") ∷ ("store.path", "/var/lib/nauti/store") ∷ ("store.tag", "nauti") ∷ [];
}

pub record Host : Type 0 where
  -- Nothing, or the text of the error.
  pub create_dir_all : String → Option String
