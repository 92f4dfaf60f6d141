-- ===== src/Vfio/Passthrough.antt =====
-- `VfioGpuAdapter` of nauti-fabric/src/vmm/vfio.rs. The state is the host, which the adapter reads
-- anew at each call; the launcher is a parameter, and `open_real` is the one that the program uses.
use Prim.Native.String.{◌++◌ as cat}
use nauti_virtualizer.Prelude.{
  ℕ, String, not, ltb, leb, Option, none, some, List, [], ◌∷◌, ◌⊎◌, inl, inr, str_eq, if◌then◌else◌,
}
use nauti_virtualizer.Dict.{Dict, get, insert}
use nauti_virtualizer.Resource.{
  Resource, Lease, Attachment, AdapterReport, Result, ok, err, same_kind, gpu,
  incompatible_resource_kind, missing_resource_attribute, adapter_backend_unavailable,
}
use nauti_virtualizer.Fabric.{Adapter}
use nauti_virtualizer.Adapters.{attachment, default_detach, note, or_else}
use nauti_virtualizer.Plan.Head.{join}
use nauti_virtualizer.Vfio.Address.{normalize_bdf}
use nauti_virtualizer.Vfio.Host.{
  Host, VfioState, available, not_bound, no_iommu, not_present, bdf_of, vfio_available_count,
  total_gpu_count, group_path, discover_vfio_state,
}

-- `VfioLauncher::open_passthrough`: what goes wrong, or the path that was opened
abbrev pub Launcher : Type 0
Launcher = Host → String → ℕ → String ⊎ String

-- `RealVfioLauncher`
unfoldable pub open_real : Launcher
open_real host bdf group =
    if host.path_exists (group_path host group)
    then inr (group_path host group)
    else inl (
        cat "vfio group device " (cat (group_path host group) (cat " does not exist for bdf " bdf)))

abbrev pub adapter_name : String
adapter_name = "gpu-vfio"

-- `gpus.iter().find(|s| s.bdf() == bdf).cloned().unwrap_or(NotPresent)`
unfoldable pub state_at : String → List VfioState → VfioState
state_at bdf [] = not_present bdf
state_at bdf (s ∷ gpus) =
    let later = state_at bdf gpus in if str_eq (bdf_of s) bdf then s else later

unfoldable pub details : Host → Resource → String → ℕ → String → String → Dict String
details host r bdf group opened discovered = note "vfio.gpu_name" (get "gpu.name" r.attributes) (
    note "vfio.gpu_uuid" (get "gpu.uuid" r.attributes) (
      insert "vfio.discovery_device_path" discovered (
        ("adapter.implementation", adapter_name)
        ∷ ("vfio.bdf", bdf)
        ∷ ("vfio.device_path", opened)
        ∷ ("vfio.iommu_group", host.decimal group)
        ∷ ("vfio.note", "real passthrough; pass this device to a VMM with --device vfio-pci=<bdf>")
        ∷ [])))

abbrev pub unbound_reason : String → String
unbound_reason bdf = cat "vfio-pci is not bound to " (
    cat bdf (
      cat "; run `driverctl set-override " (
        cat bdf
          " vfio-pci` and unbind any current driver, or load the device via a custom allocator")))

abbrev pub no_iommu_reason : String → String
no_iommu_reason bdf = cat "no IOMMU group for " (
    cat bdf
      "; enable intel_iommu / amd_iommu in kernel cmdline and verify the device is in an isolated group")

abbrev pub absent_reason : String → String
absent_reason bdf = cat "no PCI device at bdf " (cat bdf "; the GPU may have been hot-removed")

module _ (open_passthrough : Launcher) (host : Host) where
  unfoldable pub opened_at :
      Resource → Lease → String → ℕ → String → String ⊎ String → Result Attachment
  opened_at r lease bdf group discovered (inl reason) =
      err (adapter_backend_unavailable adapter_name reason)
  opened_at r lease bdf group discovered (inr opened) =
      ok (attachment r lease adapter_name (details host r bdf group opened discovered))

  unfoldable pub open_state : Resource → Lease → String → VfioState → Result Attachment
  open_state r lease bdf (available at group path) =
      opened_at r lease bdf group path (open_passthrough host bdf group)
  open_state r lease bdf (not_bound at) =
      err (adapter_backend_unavailable adapter_name (unbound_reason at))
  open_state r lease bdf (no_iommu at) =
      err (adapter_backend_unavailable adapter_name (no_iommu_reason at))
  open_state r lease bdf (not_present at) =
      err (adapter_backend_unavailable adapter_name (absent_reason at))

  unfoldable pub attach_at : Resource → Lease → Option String → Result Attachment
  attach_at r lease none = err (missing_resource_attribute "gpu.pci_bus_id")
  attach_at r lease (some raw) =
      open_state r lease (normalize_bdf raw)
        (state_at (normalize_bdf raw) (discover_vfio_state host).gpus)

  unfoldable pub address : Resource → Option String
  address r = or_else (get "gpu.pci_bdf" r.attributes) (get "gpu.pci_bus_id" r.attributes)

  unfoldable pub attach : Resource → Lease → Result Attachment
  attach r lease =
      if not (same_kind r.kind gpu)
      then err (incompatible_resource_kind adapter_name gpu r.kind)
      else attach_at r lease (address r)

-- `sort_unstable` of the groups
unfoldable pub place : ℕ → List ℕ → List ℕ
place g [] = g ∷ []
place g (h ∷ hs) = let rest = place g hs in if leb g h then g ∷ h ∷ hs else h ∷ rest

unfoldable pub sort_groups : List ℕ → List ℕ
sort_groups [] = []
sort_groups (g ∷ gs) = place g (sort_groups gs)

unfoldable pub texts_of : (ℕ → String) → List ℕ → List String
texts_of decimal [] = []
texts_of decimal (g ∷ gs) = decimal g ∷ texts_of decimal gs

unfoldable pub capability_report : Host → AdapterReport
capability_report host =
    let discovery = discover_vfio_state host in
    record {
      name = adapter_name;
      scope = "gpu-vfio-passthrough";
      healthy = ltb 0 (vfio_available_count discovery);
      detail =
          ("adapter.implementation", adapter_name)
          ∷ ("iommu.groups", join "," (texts_of host.decimal (sort_groups discovery.iommu_groups)))
          ∷ ("pci.devices_total", host.decimal discovery.total_pci_devices)
          ∷ ("vfio.devices_available", host.decimal (vfio_available_count discovery))
          ∷ ("vfio.devices_total", host.decimal (total_gpu_count discovery))
          ∷ [];
    }

unfoldable pub gpu_vfio : Launcher → Adapter Host
gpu_vfio open_passthrough = record {
  name = adapter_name;
  attach = λ r lease host. (attach open_passthrough host r lease, host);
  detach = default_detach;
  capability_report = capability_report;
}
