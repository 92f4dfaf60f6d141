-- ===== src/Tests/Stores.antt =====
-- The theorem on the adapter of nauti-fabric/src/store.rs at one store.
use nauti_virtualizer.Prelude.{ℕ, ◌==◌, ◌≡◌, refl, none, [], ◌∷◌, if◌then◌else◌}
use nauti_virtualizer.Dict.{get}
use nauti_virtualizer.Resource.{Resource, Lease, ok}
use nauti_virtualizer.Store.{
  StoreKind, parse, Host, StoreResolution, default_store_resource, from_resource, unwrap_or,
  check_kind,
}
use nauti_virtualizer.Store.Live.{attach, detach, find, put, drop, attachment, prepare, ensure_dir}
use nauti_virtualizer.Store.Round.{detach-attach}

abbrev host : Host
host = record { create_dir_all = λ path. none }

abbrev store : Resource
store = default_store_resource "local"

abbrev tenant : Lease
tenant = record { id = 7; resource_id = "local.store.fabric"; owner = "job" }

abbrev resolution : StoreResolution
resolution = record {
  resource_id = "local.store.fabric";
  kind = StoreKind.bind_path;
  path = "/var/lib/nauti/store";
  tag = "nauti";
  socket = none;
  nfs_export = none;
}

detach-attach_example :
    ((detach store tenant ((7, resolution) ∷ [])).0 ≡ ok tt)
    × ((j : ℕ)
        → find j ((detach store tenant ((7, resolution) ∷ [])).1)
          ≡ (if 7 == j then none else find j []))
unfolding attach from_resource default_store_resource get parse unwrap_or check_kind prepare
    ensure_dir put drop
detach-attach_example =
    detach-attach host store tenant [] (attachment store tenant resolution) ((7, resolution) ∷ [])
      refl
