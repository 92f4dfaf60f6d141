-- ===== src/Topology.antt =====
-- The NUMA topology of nauti-fabric/src/topology.rs. What `hwloc` answers is the state `Hardware`: the
-- PCI devices, each with the node that its ancestors name if they name one, and the NUMA nodes.
use Prim.Native.Nat.{compare, Ordering}
use Prim.Native.String.{◌++◌ as cat}
use nauti_virtualizer.Prelude.{
  ℕ, String, Bool, false, ◌==◌, Option, none, some, List, [], ◌∷◌, ◌++◌, ◌⊎◌, inl, inr, length, map,
  if◌then◌else◌,
}
use nauti_virtualizer.Resource.{Resource, memory, available}
pub mod Devices

pub record PciDeviceReport : Type 0 where
  pub name : String
  pub vendor_id : Option String
  pub device_id : Option String

pub record NumaNodeReport : Type 0 where
  pub os_index : ℕ
  pub local_memory_bytes : ℕ
  pub logical_cpus : ℕ
  pub pci_devices : List PciDeviceReport

-- A PCI device of `hwloc`: its name and ids, and the first node of the first nodeset on the way up.
pub record PciObject : Type 0 where
  pub name : Option String
  pub vendor : Option String
  pub device : Option String
  pub local_node : Option ℕ

pub record NumaObject : Type 0 where
  pub os_index : Option ℕ
  pub total_memory : ℕ
  -- the weight of the cpuset, if it has one that is finite
  pub cpus : Option ℕ

pub record Hardware : Type 0 where
  pub pci_objects : List PciObject
  pub numa_objects : List NumaObject

-- `BTreeMap<usize, Vec<PciDeviceReport>>`, in ascending order of the indices
abbrev pub Index : Type 0
Index = List (ℕ × List PciDeviceReport)

unfoldable pub unwrap_or {ℓ} : {A : Type ℓ} → A → Option A → A
unwrap_or d none = d
unwrap_or d (some a) = a

unfoldable pub report_of : PciObject → PciDeviceReport
report_of o = record {
  name = unwrap_or "unknown-pci-device" o.name;
  vendor_id = o.vendor;
  device_id = o.device;
}

unfoldable pub push_at :
    Ordering → ℕ → PciDeviceReport → ℕ → List PciDeviceReport → Index → Index → Index
push_at Ordering.lt k r j ds m rest = (k, r ∷ []) ∷ (j, ds) ∷ m
push_at Ordering.eq k r j ds m rest = (j, ds ++ r ∷ []) ∷ m
push_at Ordering.gt k r j ds m rest = (j, ds) ∷ rest

-- `entry(index).or_default().push(report)`
unfoldable pub push : ℕ → PciDeviceReport → Index → Index
push k r [] = (k, r ∷ []) ∷ []
push k r ((j, ds) ∷ m) = push_at (compare k j) k r j ds m (push k r m)

-- The devices by node, and those of no node.
pub record Sorted : Type 0 where
  pub by_node : Index
  pub unassigned : List PciDeviceReport

unfoldable pub sort_device : PciDeviceReport → Option ℕ → Sorted → Sorted
sort_device r (some index) s = record s { by_node = push index r s.by_node }
sort_device r none s = record s { unassigned = s.unassigned ++ r ∷ [] }

-- The loop over the PCI devices.
unfoldable pub sort_devices : List PciObject → Sorted → Sorted
sort_devices [] s = s
sort_devices (o ∷ os) s = sort_devices os (sort_device (report_of o) o.local_node s)

-- `remove(&index)`: what stood there, and the map without it
unfoldable pub take_out : ℕ → Index → Option (List PciDeviceReport) × Index
take_out k [] = (none, [])
take_out k ((j, ds) ∷ m) =
    let (found, rest) = take_out k m in if j == k then (some ds, m) else (found, (j, ds) ∷ rest)

unfoldable pub node_report : NumaObject → ℕ → List PciDeviceReport → NumaNodeReport
node_report o os_index devices = record {
  os_index = os_index;
  local_memory_bytes = o.total_memory;
  logical_cpus = unwrap_or 0 o.cpus;
  pci_devices = devices;
}

-- The nodes in their order; each takes the devices of its index out of the map.
unfoldable pub make_nodes : List NumaObject → Index → List NumaNodeReport × Index
make_nodes [] m = ([], m)
make_nodes (o ∷ os) m =
    let os_index = unwrap_or 0 o.os_index in
    let (found, left) = take_out os_index m in
    let (nodes, rest) = make_nodes os left in
    (node_report o os_index (unwrap_or [] found) ∷ nodes, rest)

-- `for (_, mut leftover) in pci_by_node_index { unassigned.append(&mut leftover) }`
unfoldable pub leftovers : Index → List PciDeviceReport → List PciDeviceReport
leftovers [] unassigned = unassigned
leftovers ((j, ds) ∷ m) unassigned = leftovers m (unassigned ++ ds)

unfoldable pub attach_rest : List NumaNodeReport → List PciDeviceReport → List NumaNodeReport
attach_rest nodes [] = nodes
attach_rest (n ∷ nodes) (d ∷ ds) = record n { pci_devices = n.pci_devices ++ (d ∷ ds) } ∷ nodes
attach_rest [] (d ∷ ds) =
    record { os_index = 0; local_memory_bytes = 0; logical_cpus = 0; pci_devices = d ∷ ds } ∷ []

unfoldable pub finish : List NumaNodeReport × Index → List PciDeviceReport → List NumaNodeReport
finish (nodes, left) unassigned = attach_rest nodes (leftovers left unassigned)

-- `NumaTopology::discover` on hardware that `hwloc` could load
unfoldable pub discover : Hardware → List NumaNodeReport
discover hw =
    let sorted = sort_devices hw.pci_objects (record { by_node = []; unassigned = [] }) in
    finish (make_nodes hw.numa_objects sorted.by_node) sorted.unassigned

-- `Topology::new()`: the text of the error, or the hardware
unfoldable pub discover_loaded : String ⊎ Hardware → String ⊎ List NumaNodeReport
discover_loaded (inl e) = inl (cat "failed to load hwloc topology: " e)
discover_loaded (inr hw) = inr (discover hw)

module _ (decimal : ℕ → String) where
  unfoldable pub numa_resource : String → NumaNodeReport → Resource
  numa_resource node numa = record {
    id = cat "local.numa." (decimal numa.os_index);
    kind = memory;
    capacity = numa.local_memory_bytes;
    unit = "bytes";
    node = node;
    state = available;
    exclusive = false;
    attributes =
        ("numa.logical_cpus", decimal numa.logical_cpus)
        ∷ ("numa.os_index", decimal numa.os_index)
        ∷ ("numa.pci_device_count", decimal (length numa.pci_devices))
        ∷ ("topology.scope", "numa-node")
        ∷ [];
  }

  unfoldable pub as_resources : String → List NumaNodeReport → List Resource
  as_resources node nodes = map (numa_resource node) nodes
