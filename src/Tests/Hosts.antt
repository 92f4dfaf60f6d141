-- ===== src/Tests/Hosts.antt =====
-- The theorems on the adapters of nauti-fabric/src/vmm/vfio.rs, nauti-fabric/src/memory.rs,
-- nauti-fabric/src/topology.rs, nauti-fabric/src/hwinfo.rs and nauti-fabric/src/adapters.rs (Lemonade)
-- at small hosts.
use nauti_virtualizer.Prelude.{
  ℕ, String, true, false, Option, none, some, List, [], ◌∷◌, inl, In, ◌≡◌, ◌≢◌, ◌↔◌, refl, str_eq,
  if◌then◌else◌, contains,
}
use nauti_virtualizer.Dict.{get}
use nauti_virtualizer.Resource.{Resource, Lease, Attachment, ok, gpu, network, available}
use nauti_virtualizer.Adapters.{attachment}
use nauti_virtualizer.Vfio.Host.{Host, PciDevice}
use nauti_virtualizer.Vfio.Address.{normalize_bdf}
use nauti_virtualizer.Vfio.Passthrough.{open_real, attach, address, details}
use nauti_virtualizer.Vfio.Found.{IsReady}
use nauti_virtualizer.Vfio.Promises.{CanPass, attach_vfio_iff, attach_vfio-IsReady}
use nauti_virtualizer.Fabric.{Fabric, Outcome, lease_exclusive, attach as attach_named}
use nauti_virtualizer.Memory.{Found, discover, as_resource, research_memory}
use nauti_virtualizer.Memory.Refusal.{research_never_live}
use nauti_virtualizer.Topology.{Hardware}
use nauti_virtualizer.Topology
use nauti_virtualizer.Topology.Devices.{under, present, discover-present}
use nauti_virtualizer.Json.{Value, text, array, object, nil, cons, end, field}
use nauti_virtualizer.Lemonade.{Machine, backends_from_health}
use nauti_virtualizer.Lemonade.Promises.{Distinct, AllBackends, backends_from_health_lem}
use nauti_virtualizer.Hardware.Sysfs.{Sys, join}
use nauti_virtualizer.Hardware.Rdma.{port_id, port_resource, is_active, rdma_details}
use nauti_virtualizer.Hardware.Ports.{attach_rdma-IsPort}

abbrev card : PciDevice
card = record {
  class = some "0x030000\n";
  vendor = some "0x10de\n";
  iommu_group = some "../../kernel/iommu_groups/7";
  driver = some "vfio-pci";
}

abbrev slots : List (Option String × PciDevice)
slots = (some "0000:03:00.0", card) ∷ []

abbrev ready_host : Host
ready_host = record {
  devices = some slots;
  path_exists = λ path. str_eq path "/dev/vfio/7";
  decimal = λ n. "7";
}

abbrev passed : Resource
passed = record {
  id = "gpu.0";
  kind = gpu;
  capacity = 1;
  unit = "device";
  node = "local";
  state = available;
  exclusive = true;
  attributes = ("gpu.pci_bus_id", "00000000:03:00.0") ∷ [];
}

abbrev held : Lease
held = record { id = 1; resource_id = "gpu.0"; owner = "eve" }

attach_vfio_iff_example :
    ((a : Attachment) × (attach open_real ready_host passed held ≡ ok a))
    ↔ CanPass open_real ready_host passed held
attach_vfio_iff_example = attach_vfio_iff open_real ready_host passed held

attach_vfio-IsReady_example :
    (raw : String) × (d : PciDevice) × (group : ℕ) × (address open_real ready_host passed
      ≡ some raw)
    × In (some (normalize_bdf raw), d) slots
    × IsReady ready_host d group
unfolding attach nauti_virtualizer.Vfio.Passthrough.attach_at address
    nauti_virtualizer.Adapters.or_else get nauti_virtualizer.Vfio.Passthrough.open_state
    nauti_virtualizer.Vfio.Passthrough.state_at nauti_virtualizer.Vfio.Host.discover_vfio_state
    nauti_virtualizer.Vfio.Host.discover_from nauti_virtualizer.Vfio.Host.walk
    nauti_virtualizer.Vfio.Host.found nauti_virtualizer.Vfio.Host.is_gpu
    nauti_virtualizer.Vfio.Host.is_display nauti_virtualizer.Vfio.Host.read_hex
    nauti_virtualizer.Vfio.Address.parse_hex nauti_virtualizer.Http.Text.unsigned
    nauti_virtualizer.Vfio.Address.or_whole attachment nauti_virtualizer.Adapters.note
    nauti_virtualizer.Dict.insert nauti_virtualizer.Http.Text.behind
    nauti_virtualizer.Http.Text.contains_text nauti_virtualizer.Http.Text.digit
    nauti_virtualizer.Http.Text.digits nauti_virtualizer.Http.Text.lower
    nauti_virtualizer.Http.Text.or_here nauti_virtualizer.Http.Text.rsplit_once
    nauti_virtualizer.Http.Text.split_once nauti_virtualizer.Http.Text.strip_prefix
    nauti_virtualizer.Http.Text.to_ascii_lowercase nauti_virtualizer.Http.Text.trim
    nauti_virtualizer.Http.Utf8.from_u32 nauti_virtualizer.Plan.Text.is_whitespace
    nauti_virtualizer.Vfio.Address.group_number nauti_virtualizer.Vfio.Address.hex4
    nauti_virtualizer.Vfio.Address.hex_digit nauti_virtualizer.Vfio.Address.hex_digits
    nauti_virtualizer.Vfio.Address.hex_width normalize_bdf
    nauti_virtualizer.Vfio.Address.second_part nauti_virtualizer.Vfio.Address.unwrap_or_zero
    nauti_virtualizer.Vfio.Address.with_domain nauti_virtualizer.Vfio.Host.bdf_of
    nauti_virtualizer.Vfio.Host.classify_gpu nauti_virtualizer.Vfio.Host.group_path
    nauti_virtualizer.Vfio.Host.in_group nauti_virtualizer.Vfio.Host.insert_group
    nauti_virtualizer.Vfio.Host.is_all_ones nauti_virtualizer.Vfio.Host.is_vfio_pci
    nauti_virtualizer.Vfio.Host.read_group details nauti_virtualizer.Vfio.Passthrough.opened_at
    nauti_virtualizer.Vmm.Texts.is_empty nauti_virtualizer.Vmm.Texts.trim_end
    nauti_virtualizer.Vmm.Texts.trim_start open_real
attach_vfio-IsReady_example =
    attach_vfio-IsReady ready_host slots passed held
      (attachment passed held "gpu-vfio"
        (details ready_host passed "0000:03:00.0" 7 "/dev/vfio/7" "/dev/vfio/7"))
      refl refl

abbrev nothing : Found
nothing = record {
  cxl_bus = false;
  cxl_entries = [];
  dev_entries = [];
  mounts = "";
  opt_drust = false;
  libdrust = false;
  drust_home = false;
}

abbrev no_digits : ℕ → String
no_digits n = "0"

abbrev research : Fabric Found
research = record {
  resources = ("local.memory.research", as_resource no_digits (discover nothing) "local") ∷ [];
  leases = [];
  leases_poisoned = false;
  adapters = ("memory-research", research_memory no_digits) ∷ [];
  attachments = [];
  heartbeats = [];
  next_lease_id = 0;
  world = nothing;
}

research_never_live_example :
    ((lease_exclusive 100 "local.memory.research" "asker" 10 1 2 research).0 ≢ Outcome.ok held)
    × ((attach_named "memory-research" held 3 research).0
        ≢ Outcome.ok (attachment passed held "memory-research" []))
unfolding get
research_never_live_example =
    research_never_live no_digits (discover nothing) "local" research refl refl 100 "asker" 10 1 2
      held held 3 (attachment passed held "memory-research" [])

-- One device under node 0, and one under a node that is not listed.
abbrev hardware : Hardware
hardware = record {
  pci_objects =
      record { name = some "nic"; vendor = none; device = none; local_node = some 0 }
      ∷ record { name = none; vendor = none; device = none; local_node = some 3 }
      ∷ [];
  numa_objects = record { os_index = some 0; total_memory = 4096; cpus = some 8 } ∷ [];
}

discover-present_example :
    under (λ d. 1) (Topology.discover hardware) ≡ present (λ d. 1) hardware.pci_objects
discover-present_example = discover-present (λ d. 1) hardware

abbrev machine : Machine ℕ
machine = record {
  command = λ args. none;
  health = λ host port key. none;
  parse = λ s. none;
  parse_f64 = λ s. none;
  amd_gpus = [];
  to_lowercase = λ s. s;
  decimal = λ n. "13305";
}

abbrev model : Value ℕ
model = object (field "launch_command" (array (cons (text "/bin/llamacpp/vulkan/server") nil)) end)

abbrev health : Value ℕ
health = object (field "all_models_loaded" (array (cons model (cons model nil))) end)

backends_from_health_lem_example :
    Distinct (backends_from_health machine health)
    × AllBackends machine (backends_from_health machine health)
    × (contains (backends_from_health machine health) "vulkan" ≡ true)
unfolding nauti_virtualizer.Json.elements nauti_virtualizer.Json.at
    nauti_virtualizer.Lemonade.backend_from_launch_command
    nauti_virtualizer.Lemonade.backend_of_text nauti_virtualizer.Lemonade.command_text
    nauti_virtualizer.Lemonade.first_element nauti_virtualizer.Json.as_str
    nauti_virtualizer.Lemonade.after_llamacpp nauti_virtualizer.Http.Text.split
    nauti_virtualizer.Lemonade.is_backend
backends_from_health_lem_example =
    backends_from_health_lem machine health model "vulkan" (inl refl) refl

abbrev one_port : Sys
one_port = record {
  root = "/sys";
  read_to_string = λ path.
      if str_eq path "/sys/class/infiniband/mlx5_0/ports/1/state" then some "4: ACTIVE" else none;
  names = λ dir.
      if str_eq dir "/sys/class/infiniband"
      then "mlx5_0" ∷ []
      else if str_eq dir "/sys/class/infiniband/mlx5_0/ports"
      then "1" ∷ []
      else [];
  link_name = λ path. none;
  canonical_name = λ path. none;
  exists = λ path. false;
  ip_addr = none;
  decimal = λ n. "0";
  giga = λ s. none;
}

abbrev port : Resource
port = record {
  id = "local.rdma.mlx5_0.1";
  kind = network;
  capacity = 0;
  unit = "bits/s";
  node = "local";
  state = available;
  exclusive = true;
  attributes = ("rdma.device", "mlx5_0") ∷ [];
}

attach_rdma-IsPort_example :
    (device : String) × (number : String) × In device
      (one_port.names (join one_port.root "class/infiniband"))
    × In number
        (one_port.names (join (join (join one_port.root "class/infiniband") device) "ports"))
    × (port_id one_port device number ≡ port.id)
    × (is_active one_port device number ≡ true)
unfolding nauti_virtualizer.Hardware.Rdma.attach_rdma nauti_virtualizer.Hardware.Rdma.attach_device
    get nauti_virtualizer.Hardware.Rdma.attach_live nauti_virtualizer.Hardware.Rdma.find_id
    nauti_virtualizer.Hardware.Rdma.rdma_resources nauti_virtualizer.Hardware.Rdma.rdma_of join
    nauti_virtualizer.Hardware.Rdma.ports_of port_resource port_id
    nauti_virtualizer.Hardware.Rdma.link_state is_active nauti_virtualizer.Http.Text.contains_text
    nauti_virtualizer.Hardware.Sysfs.or_text nauti_virtualizer.Hardware.Sysfs.read
    nauti_virtualizer.Hardware.Sysfs.trimmed attachment nauti_virtualizer.Adapters.note
    nauti_virtualizer.Dict.insert nauti_virtualizer.Hardware.Enrich.joined
    nauti_virtualizer.Hardware.Rdma.first_v2 nauti_virtualizer.Hardware.Rdma.giga_of
    nauti_virtualizer.Hardware.Rdma.indices nauti_virtualizer.Hardware.Rdma.ipv4_of_netdev
    nauti_virtualizer.Hardware.Rdma.or_one nauti_virtualizer.Hardware.Rdma.parsed_index
    nauti_virtualizer.Hardware.Rdma.port_dir rdma_details
    nauti_virtualizer.Hardware.Rdma.rdma_transport nauti_virtualizer.Hardware.Rdma.roce_v2_gid_index
    nauti_virtualizer.Hardware.Sysfs.add_address nauti_virtualizer.Hardware.Sysfs.after_inet
    nauti_virtualizer.Hardware.Sysfs.ip_lines nauti_virtualizer.Hardware.Sysfs.ipv4_by_interface
    nauti_virtualizer.Hardware.Sysfs.ipv4_of nauti_virtualizer.Hardware.Sysfs.nth
    nauti_virtualizer.Hardware.Sysfs.or_none nauti_virtualizer.Hardware.Sysfs.or_zero
    nauti_virtualizer.Hardware.Sysfs.pci_numa nauti_virtualizer.Hardware.Sysfs.trim_colons
    nauti_virtualizer.Hardware.Sysfs.with_affinity nauti_virtualizer.Http.Lines.line_ends
    nauti_virtualizer.Http.Lines.lines nauti_virtualizer.Http.Text.behind
    nauti_virtualizer.Http.Text.digit nauti_virtualizer.Http.Text.digits
    nauti_virtualizer.Http.Text.or_here nauti_virtualizer.Http.Text.rsplit_once
    nauti_virtualizer.Http.Text.split nauti_virtualizer.Http.Text.split_whitespace
    nauti_virtualizer.Http.Text.strip_cr nauti_virtualizer.Http.Text.trim
    nauti_virtualizer.Http.Text.unsigned nauti_virtualizer.Plan.Head.join
    nauti_virtualizer.Plan.Text.is_whitespace nauti_virtualizer.Vfio.Address.second_part
    nauti_virtualizer.Vfio.Passthrough.place nauti_virtualizer.Vfio.Passthrough.sort_groups
    nauti_virtualizer.Vmm.Texts.is_empty nauti_virtualizer.Vmm.Texts.trim_end
    nauti_virtualizer.Vmm.Texts.trim_start
attach_rdma-IsPort_example =
    attach_rdma-IsPort one_port port held
      (attachment port held "rdma"
        (rdma_details one_port (port_resource one_port "local" "mlx5_0" "1") "mlx5_0" "1"))
      refl
