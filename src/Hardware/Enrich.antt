-- ===== src/Hardware/Enrich.antt =====
-- What nauti-fabric/src/hwinfo.rs adds to the network and GPU resources, and its NUMA resources.
use Prim.Native.String.{◌++◌ as cat}
use nauti_virtualizer.Prelude.{
  ℕ, String, ◌*◌, ◌%◌, ◌^◌, ◌==◌, false, Option, none, some, List, [], ◌∷◌, if◌then◌else◌,
}
use nauti_virtualizer.Dict.{Dict, get, insert}
use nauti_virtualizer.Resource.{Resource, same_kind, network, gpu, memory, available}
use nauti_virtualizer.Adapters.{note}
use nauti_virtualizer.Plan.Head.{join as join_texts}
use nauti_virtualizer.Http.Text.{strip_prefix, unsigned}
use nauti_virtualizer.Hardware.Sysfs.{Sys, u64_bound, join, or_text, read, pci_numa, node_meminfo}

unfoldable pub joined : Option (List String) → Option String
joined none = none
joined (some addrs) = some (join_texts "," addrs)

-- `parse::<i64>().ok().filter(|s| *s > 0)`
unfoldable pub positive : Option ℕ → Option ℕ
positive none = none
positive (some n) = if n == 0 then none else some n

unfoldable pub positive_i64 : Option String → Option ℕ
positive_i64 none = none
positive_i64 (some s) = positive (unsigned 10 (2 ^ 63) s)

module _ (sys : Sys) where
  -- The netdevs of one RDMA device.
  unfoldable pub netdevs_of : String → List String → Dict String → Dict String
  netdevs_of name [] out = out
  netdevs_of name (netdev ∷ rest) out = netdevs_of name rest (insert netdev name out)

  unfoldable pub rdma_devices : List String → Dict String → Dict String
  rdma_devices [] out = out
  rdma_devices (name ∷ rest) out =
      let dev = join (join sys.root "class/infiniband") name in
      rdma_devices rest (netdevs_of name (sys.names (join dev "device/net")) out)

  -- The RDMA device of each netdev; the port that the code notes beside it is never read.
  unfoldable pub rdma_by_netdev : Dict String
  rdma_by_netdev = rdma_devices (sys.names (join sys.root "class/infiniband")) []

  unfoldable pub with_speed : Option ℕ → Resource → Resource
  with_speed none r = r
  with_speed (some mbps) r = record r {
    attributes = insert "net.speed_mbps" (sys.decimal mbps) r.attributes;
    capacity = mbps * 1000000 % u64_bound;
    unit = "bits/s";
  }

  unfoldable pub device_notes : String → Dict String → Dict String
  device_notes device attrs =
      if sys.exists device
      then note "net.numa_node" (pci_numa sys device) (
          note "net.driver" (sys.link_name (join device "driver"))
            (note "net.pci_bdf" (sys.canonical_name device) attrs))
      else insert "net.virtual" "true" attrs

  unfoldable pub enrich_interface : Dict (List String) → String → String → Resource → Resource
  enrich_interface ipv4 iface dir r =
      let sped = with_speed (positive_i64 (read sys (join dir "speed"))) (record r {
        attributes = note "net.operstate" (read sys (join dir "operstate")) r.attributes;
      }) in
      record sped {
        attributes = note "net.rdma_device" (get iface rdma_by_netdev) (
            note "net.ipv4" (joined (get iface ipv4)) (
              device_notes (join dir "device")
                (note "net.mtu" (read sys (join dir "mtu")) sped.attributes)));
      }

  unfoldable pub enrich_named : Dict (List String) → Option String → Resource → Resource
  enrich_named ipv4 none r = r
  enrich_named ipv4 (some iface) r =
      let dir = join (join sys.root "class/net") iface in
      if sys.exists dir then enrich_interface ipv4 iface dir r else r

  unfoldable pub enrich_network : Dict (List String) → List Resource → List Resource
  enrich_network ipv4 [] = []
  enrich_network ipv4 (r ∷ rs) =
      (if same_kind r.kind network then enrich_named ipv4 (get "interface" r.attributes) r else r)
      ∷ enrich_network ipv4 rs

  unfoldable pub with_gpu_numa : Option String → Resource → Resource
  with_gpu_numa none r = r
  with_gpu_numa (some bdf) r = record r {
    attributes =
        note "gpu.numa_node" (pci_numa sys (join (join sys.root "bus/pci/devices") bdf))
          r.attributes;
  }

  unfoldable pub enrich_gpu_numa : List Resource → List Resource
  enrich_gpu_numa [] = []
  enrich_gpu_numa (r ∷ rs) =
      (if same_kind r.kind gpu then with_gpu_numa (get "gpu.pci_bdf" r.attributes) r else r)
      ∷ enrich_gpu_numa rs

  unfoldable pub node_index : Option String → Option ℕ
  node_index none = none
  node_index (some s) = unsigned 10 (2 ^ 32) s

  unfoldable pub numa_node : String → String → ℕ → Resource
  numa_node node dir index =
      let (total, free) = node_meminfo sys dir in
      record {
        id = cat "local.numa." (sys.decimal index);
        kind = memory;
        capacity = total;
        unit = "bytes";
        node = node;
        state = available;
        exclusive = false;
        attributes =
            ("numa.cpulist", or_text (read sys (join dir "cpulist")))
            ∷ ("numa.free_bytes", sys.decimal free)
            ∷ ("numa.node", sys.decimal index)
            ∷ [];
      }

  unfoldable pub push_node : String → String → Option ℕ → List Resource → List Resource
  push_node node dir none rest = rest
  push_node node dir (some index) rest = numa_node node dir index ∷ rest

  unfoldable pub numa_of : String → List String → List Resource
  numa_of node [] = []
  numa_of node (name ∷ rest) =
      push_node node (join (join sys.root "devices/system/node") name)
        (node_index (strip_prefix "node" name)) (numa_of node rest)

  unfoldable pub numa_resources : String → List Resource
  numa_resources node = numa_of node (sys.names (join sys.root "devices/system/node"))
