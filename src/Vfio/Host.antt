-- ===== src/Vfio/Host.antt =====
-- What nauti-fabric/src/vmm/vfio.rs finds on the host: `discover_vfio_state` and `classify_gpu`. The
-- device directory is a list of entries, each with what its files and links answer when read.
use Prim.Native.String.{◌++◌ as cat}
use nauti_virtualizer.Prelude.{
  ℕ, suc, String, Bool, true, false, not, ◌/◌, ◌%◌, ◌==◌, Option, none, some, List, [], ◌∷◌, any,
  keep, length, str_eq, if◌then◌else◌,
}
use nauti_virtualizer.Http.Text.{trim}
use nauti_virtualizer.Vfio.Address.{parse_hex, group_number}

-- `iommu_group` is the target of that link, `driver` the last name in the target of the driver's.
pub record PciDevice : Type 0 where
  pub class : Option String
  pub vendor : Option String
  pub iommu_group : Option String
  pub driver : Option String

-- `/sys/bus/pci/devices`, unless it cannot be read, and which paths exist. A name is none if it is
-- not UTF-8.
pub record Host : Type 0 where
  pub devices : Option (List (Option String × PciDevice))
  pub path_exists : String → Bool
  pub decimal : ℕ → String

pub data VfioState : Type 0 where
  available : String → ℕ → String → VfioState
  not_bound : String → VfioState
  no_iommu : String → VfioState
  not_present : String → VfioState

unfoldable pub bdf_of : VfioState → String
bdf_of (available bdf iommu_group device_path) = bdf
bdf_of (not_bound bdf) = bdf
bdf_of (no_iommu bdf) = bdf
bdf_of (not_present bdf) = bdf

unfoldable pub is_open : VfioState → Bool
is_open (available bdf iommu_group device_path) = true
is_open _ = false

pub record VfioDiscovery : Type 0 where
  pub gpus : List VfioState
  pub total_pci_devices : ℕ
  pub iommu_groups : List ℕ

unfoldable pub vfio_available_count : VfioDiscovery → ℕ
vfio_available_count d = length (keep is_open d.gpus)

unfoldable pub total_gpu_count : VfioDiscovery → ℕ
total_gpu_count d = length d.gpus

-- `read_first_line(…).and_then(|text| parse_hex(&text))`
unfoldable pub read_hex : Option String → Option ℕ
read_hex none = none
read_hex (some text) = parse_hex (trim text)

unfoldable pub is_display : Option ℕ → Bool
is_display none = false
is_display (some class) = class / 65536 % 256 == 3

unfoldable pub is_gpu : PciDevice → Bool
is_gpu d = is_display (read_hex d.class)

unfoldable pub is_all_ones : Option ℕ → Bool
is_all_ones none = false
is_all_ones (some vendor) = vendor == 0xffff

unfoldable pub is_vfio_pci : Option String → Bool
is_vfio_pci none = false
is_vfio_pci (some name) = str_eq name "vfio-pci"

unfoldable pub read_group : Option String → Option ℕ
read_group none = none
read_group (some target) = group_number target

module _ (host : Host) where
  unfoldable pub group_path : ℕ → String
  group_path group = cat "/dev/vfio/" (host.decimal group)

  unfoldable pub in_group : String → PciDevice → Option ℕ → VfioState
  in_group bdf d none = no_iommu bdf
  in_group bdf d (some group) =
      if not (is_vfio_pci d.driver)
      then not_bound bdf
      else if not (host.path_exists (group_path group))
      then no_iommu bdf
      else available bdf group (group_path group)

  unfoldable pub classify_gpu : String → PciDevice → VfioState
  classify_gpu bdf d =
      if is_all_ones (read_hex d.vendor)
      then not_present bdf
      else in_group bdf d (read_group d.iommu_group)

  -- `HashSet::insert`
  unfoldable pub insert_group : VfioState → List ℕ → List ℕ
  insert_group (available bdf group path) groups =
      if any (λ g. g == group) groups then groups else group ∷ groups
  insert_group _ groups = groups

  unfoldable pub found : String → PciDevice → VfioDiscovery → VfioDiscovery
  found bdf d rest =
      if is_gpu d
      then (record {
        gpus = classify_gpu bdf d ∷ rest.gpus;
        total_pci_devices = suc rest.total_pci_devices;
        iommu_groups = insert_group (classify_gpu bdf d) rest.iommu_groups;
      })
      else record rest { total_pci_devices = suc rest.total_pci_devices }

  -- The loop over the entries; one whose name is not UTF-8 is not counted.
  unfoldable pub walk : List (Option String × PciDevice) → VfioDiscovery
  walk [] = record { gpus = []; total_pci_devices = 0; iommu_groups = [] }
  walk ((none, d) ∷ entries) = walk entries
  walk ((some bdf, d) ∷ entries) = found bdf d (walk entries)

  unfoldable pub discover_from : Option (List (Option String × PciDevice)) → VfioDiscovery
  discover_from none = record { gpus = []; total_pci_devices = 0; iommu_groups = [] }
  discover_from (some entries) = walk entries

  unfoldable pub discover_vfio_state : VfioDiscovery
  discover_vfio_state = discover_from host.devices
