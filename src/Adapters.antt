-- ===== src/Adapters.antt =====
-- The adapters that touch no hardware, as the fabric sees them: LocalResourceAdapter and
-- NetworkResourceAdapter of nauti-fabric/src/adapters.rs, and GpuLocalAdapter of
-- nauti-fabric/src/gpu/adapter.rs, whose state is its map of reservations. LocalProofAdapter, and the trait's own
-- `detach`, which does nothing and stands for all four, are in nauti-fabric/src/lib.rs. A reservation's
-- `attached_at` is never read, and is left out; the live GPU count of a report is a parameter.
use Prim.Native.String.{◌++◌}
use nauti_virtualizer.Prelude.{
  ℕ, String, Bool, true, false, not, Option, none, some, List, [], ◌∷◌, length, str_eq,
  if◌then◌else◌, ◌==◌,
}
use nauti_virtualizer.Dict.{Dict, get, insert}
use nauti_virtualizer.Resource.{
  Resource, FabricError, Lease, Attachment, AdapterReport, Result, ok, err, ok_or, bind, same_kind,
  gpu, incompatible_resource_kind, incompatible_resource_locality, missing_resource_attribute,
  resource_not_found,
}
use nauti_virtualizer.Fabric.{Adapter}
pub mod Promises

unfoldable pub attachment : Resource → Lease → String → Dict String → Attachment
attachment r lease adapter details = record {
  resource_id = r.id;
  lease_id = lease.id;
  adapter = adapter;
  details = details;
}

-- `ResourceAdapter::detach`, unless an adapter has its own
unfoldable pub default_detach : {W : Type 0} → Resource → Lease → W → Result (Unit {0}) × W
default_detach r lease w = (ok tt, w)

unfoldable pub attach_local : Resource → Lease → Result Attachment
unfolding attachment
attach_local r lease =
    if str_eq r.node "local"
    then ok (attachment r lease "local-resource" (("attachment.scope", "local") ∷ []))
    else err (incompatible_resource_locality "local-resource" "local" r.node)

unfoldable pub attach_network : Resource → Lease → Result Attachment
unfolding attachment
attach_network r lease =
    if str_eq r.node "local"
    then err (incompatible_resource_locality "network-resource" "remote" "local")
    else (bind
        (ok_or (get "network.endpoint" r.attributes)
          (missing_resource_attribute "network.endpoint"))
        λ endpoint.
          bind
            (ok_or (get "network.protocol" r.attributes)
              (missing_resource_attribute "network.protocol"))
            λ protocol. ok (
              attachment r lease "network-resource" (
                ("attachment.scope", "network")
                ∷ ("endpoint", endpoint)
                ∷ ("protocol", protocol)
                ∷ [])))

unfoldable pub local_resource : {W : Type 0} → Adapter W
unfolding attach_local default_detach
local_resource = record {
  name = "local-resource";
  attach = λ r lease w. (attach_local r lease, w);
  detach = default_detach;
  capability_report = λ w. record {
    name = "local-resource";
    scope = "local-host";
    healthy = true;
    detail = ("resource.locality", "local") ∷ [];
  };
}

unfoldable pub network_resource : {W : Type 0} → Adapter W
unfolding attach_network default_detach
network_resource = record {
  name = "network-resource";
  attach = λ r lease w. (attach_network r lease, w);
  detach = default_detach;
  capability_report = λ w. record {
    name = "network-resource";
    scope = "remote-descriptor";
    healthy = true;
    detail = ("resource.locality", "remote") ∷ [];
  };
}

-- `LocalProofAdapter` of nauti-fabric/src/lib.rs
unfoldable pub attach_proof : Resource → Lease → Result Attachment
unfolding attachment
attach_proof r lease =
    if str_eq r.id lease.resource_id
    then ok (attachment r lease "local-proof" [])
    else err resource_not_found

unfoldable pub local_proof : {W : Type 0} → Adapter W
unfolding attach_proof default_detach
local_proof = record {
  name = "local-proof";
  attach = λ r lease w. (attach_proof r lease, w);
  detach = default_detach;
  capability_report =
      λ w. record { name = "local-proof"; scope = "unspecified"; healthy = true; detail = [] };
}

pub record GpuReservation : Type 0 where
  pub lease_id : ℕ
  pub gpu_id : String

-- `a.or_else(|| b)`
unfoldable pub or_else : Option String → Option String → Option String
or_else none b = b
or_else (some a) b = some a

unfoldable pub gpu_id_of : Resource → Option String
unfolding or_else
gpu_id_of r = or_else (get "gpu.uuid" r.attributes) (get "gpu.pci_bus_id" r.attributes)

-- `if let Some(v) = attribute { details.insert(key, v) }`
unfoldable pub note : String → Option String → Dict String → Dict String
note key none details = details
note key (some v) details = insert key v details

unfoldable pub gpu_details : Resource → String → Dict String
unfolding note
gpu_details r gpu_id =
    note "gpu.free_memory_bytes_at_attach" (get "gpu.free_memory_bytes" r.attributes) (
      note "gpu.pci_bus_id" (get "gpu.pci_bus_id" r.attributes) (
        note "gpu.name" (get "gpu.name" r.attributes) (
          ("adapter.implementation", "gpu-local")
          ∷ ("gpu.attachment_scope", "gpu-host-local")
          ∷ ("gpu.id", gpu_id)
          ∷ ("gpu.note", "host-local reservation; no VFIO passthrough bound")
          ∷ [])))

-- The lease already holds this reservation.
unfoldable pub held_by : ℕ → Option GpuReservation → Bool
held_by lease_id none = false
held_by lease_id (some existing) = existing.lease_id == lease_id

unfoldable pub reserve :
    Resource → Lease → Option String → Dict GpuReservation → Result Attachment × Dict GpuReservation
reserve r lease none w = (err (missing_resource_attribute "gpu.uuid or gpu.pci_bus_id"), w)
reserve r lease (some gpu_id) w =
    if held_by lease.id (get r.id w)
    then (
      ok (attachment r lease "gpu-local" (insert "gpu.reattach" "true" (gpu_details r gpu_id))),
      w,
    )
    else (
      ok (attachment r lease "gpu-local" (gpu_details r gpu_id)),
      insert r.id (record { lease_id = lease.id; gpu_id = gpu_id }) w,
    )

unfoldable pub attach_gpu :
    Resource → Lease → Dict GpuReservation → Result Attachment × Dict GpuReservation
attach_gpu r lease w =
    if same_kind r.kind gpu
    then reserve r lease (gpu_id_of r) w
    else (err (incompatible_resource_kind "gpu-local" gpu r.kind), w)

unfoldable pub gpu_local : (ℕ → String) → ℕ → Adapter (Dict GpuReservation)
unfolding attach_gpu default_detach
gpu_local decimal gpu_count = record {
  name = "gpu-local";
  attach = attach_gpu;
  detach = default_detach;
  capability_report = λ w. record {
    name = "gpu-local";
    scope = "gpu-host-local";
    healthy = true;
    detail =
        ("adapter.implementation", "gpu-local")
        ∷ ("gpu.attachment_mode", "host-local reservation (no hardware binding)")
        ∷ ("gpu.count_live", decimal gpu_count)
        ∷ ("reservations.current", decimal (length w))
        ∷ ("vfio.available", "see vmm::vfio adapter if --features vfio is enabled")
        ∷ [];
  };
}
