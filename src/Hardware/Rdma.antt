-- ===== src/Hardware/Rdma.antt =====
-- The RDMA ports of nauti-fabric/src/hwinfo.rs, and the adapter that leases them.
use Prim.Native.String.{◌++◌ as cat}
use text.Mathlib.Text.{starts_with}
use nauti_virtualizer.Prelude.{
  ℕ, String, Bool, true, false, not, ◌&&◌, ◌||◌, ◌^◌, Option, none, some, List, [], ◌∷◌, ◌++◌,
  length, str_eq, if◌then◌else◌,
}
use nauti_virtualizer.Dict.{Dict, get, insert}
use nauti_virtualizer.Resource.{
  Resource, ResourceState, Lease, Attachment, AdapterReport, Result, ok, err, network, available,
  unavailable, is_available, missing_resource_attribute, adapter_backend_unavailable,
}
use nauti_virtualizer.Fabric.{Adapter}
use nauti_virtualizer.Adapters.{attachment, default_detach, note}
use nauti_virtualizer.Plan.Head.{join as join_texts}
use nauti_virtualizer.Http.Text.{trim, split_whitespace, contains_text, rsplit_once, unsigned}
use nauti_virtualizer.Vfio.Address.{second_part}
use nauti_virtualizer.Vfio.Passthrough.{sort_groups}
use nauti_virtualizer.Hardware.Sysfs.{
  Sys, join, or_text, or_zero, nth, read, pci_numa, ipv4_by_interface,
}
use nauti_virtualizer.Hardware.Enrich.{joined, enrich_network, enrich_gpu_numa, numa_resources}

unfoldable pub rdma_transport : String → String
rdma_transport name =
    if starts_with name "roce" || starts_with name "bnxt_re" || starts_with name "mlx"
    then "roce"
    else if starts_with name "iw" || starts_with name "irdma"
    then "iwarp"
    else if starts_with name "ib" || starts_with name "hfi"
    then "infiniband"
    else "unknown"

unfoldable pub link_state : Bool → ResourceState
link_state active = if active then available else unavailable

module _ (sys : Sys) where
  unfoldable pub giga_of : Option String → ℕ
  giga_of none = 0
  giga_of (some v) = or_zero (sys.giga v)

  unfoldable pub port_id : String → String → String
  port_id name port_num = cat "local.rdma." (cat name (cat "." port_num))

  unfoldable pub port_dir : String → String → String
  port_dir name port_num =
      join (join (join (join sys.root "class/infiniband") name) "ports") port_num

  -- The device has that port now, and its state names it active.
  unfoldable pub is_active : String → String → Bool
  is_active name port_num =
      contains_text (or_text (read sys (join (port_dir name port_num) "state"))) "ACTIVE"

  unfoldable pub port_resource : String → String → String → Resource
  port_resource node name port_num =
      let device = join (join (join sys.root "class/infiniband") name) "device" in
      let port = port_dir name port_num in
      let state = or_text (read sys (join port "state")) in
      let rate = or_text (read sys (join port "rate")) in
      record {
        id = port_id name port_num;
        kind = network;
        capacity = giga_of (nth 0 (split_whitespace rate));
        unit = "bits/s";
        node = node;
        state = link_state (is_active name port_num);
        exclusive = true;
        attributes = note "rdma.gid0" (read sys (join port "gids/0")) (
            note "rdma.driver" (sys.link_name (join device "driver")) (
              note "rdma.numa_node" (pci_numa sys device) (
                note "rdma.netdev" (nth 0 (sys.names (join device "net"))) (
                  ("rdma.device", name)
                  ∷ ("rdma.link_layer", or_text (read sys (join port "link_layer")))
                  ∷ ("rdma.port", port_num)
                  ∷ ("rdma.rate", rate)
                  ∷ ("rdma.state", trim (second_part state (rsplit_once 58 state)))
                  ∷ ("rdma.transport", rdma_transport name)
                  ∷ []))));
      }

  unfoldable pub ports_of : String → String → List String → List Resource
  ports_of node name [] = []
  ports_of node name (port_num ∷ rest) = port_resource node name port_num ∷ ports_of node name rest

  unfoldable pub rdma_of : String → List String → List Resource
  rdma_of node [] = []
  rdma_of node (name ∷ rest) =
      ports_of node name (sys.names (join (join (join sys.root "class/infiniband") name) "ports"))
      ++ rdma_of node rest

  unfoldable pub rdma_resources : String → List Resource
  rdma_resources node = rdma_of node (sys.names (join sys.root "class/infiniband"))

  unfoldable pub discover_hardware : String → List Resource → List Resource
  discover_hardware node resources =
      enrich_gpu_numa sys (enrich_network sys (ipv4_by_interface sys) resources)
      ++ numa_resources sys node
      ++ rdma_resources node

  unfoldable pub parsed_index : Option ℕ → List ℕ → List ℕ
  parsed_index none rest = rest
  parsed_index (some i) rest = i ∷ rest

  unfoldable pub indices : List String → List ℕ
  indices [] = []
  indices (name ∷ rest) = parsed_index (unsigned 10 (2 ^ 32) name) (indices rest)

  unfoldable pub first_v2 : String → List ℕ → Option String
  first_v2 port [] = none
  first_v2 port (i ∷ is) =
      let later = first_v2 port is in
      let gid = or_text (read sys (join (join port "gids") (sys.decimal i))) in
      let kind = or_text (read sys (join (join port "gid_attrs/types") (sys.decimal i))) in
      if str_eq kind "RoCE v2" && starts_with gid "0000:0000:0000:0000:0000:ffff:"
      then some (sys.decimal i)
      else later

  unfoldable pub roce_v2_gid_index : String → String → Option String
  roce_v2_gid_index device port =
      first_v2 (port_dir device port)
        (sort_groups (indices (sys.names (join (port_dir device port) "gids"))))

  unfoldable pub ipv4_of_netdev : Option String → Option String
  ipv4_of_netdev none = none
  ipv4_of_netdev (some netdev) = joined (get netdev (ipv4_by_interface sys))

  unfoldable pub rdma_details : Resource → String → String → Dict String
  rdma_details live device port =
      note "rdma.ipv4" (ipv4_of_netdev (get "rdma.netdev" live.attributes)) (
        note "rdma.roce_v2_gid_index" (roce_v2_gid_index device port)
          (insert "attachment.scope" "rdma-port" live.attributes))

  -- `iter().find(|r| r.id == id)`
  unfoldable pub find_id : String → List Resource → Option Resource
  find_id id [] = none
  find_id id (r ∷ rs) = let later = find_id id rs in if str_eq r.id id then some r else later

  unfoldable pub attach_live :
      Resource → Lease → String → String → Option Resource → Result Attachment
  attach_live r lease device port none = err (
      adapter_backend_unavailable "rdma"
        (cat device (cat " port " (cat port " no longer in /sys/class/infiniband"))))
  attach_live r lease device port (some live) =
      if is_available live.state
      then ok (attachment r lease "rdma" (rdma_details live device port))
      else err (
          adapter_backend_unavailable "rdma" (
            cat device
              (cat " port " (cat port (cat " is " (or_text (get "rdma.state" live.attributes)))))))

  unfoldable pub or_one : Option String → String
  or_one none = "1"
  or_one (some p) = p

  unfoldable pub attach_device : Resource → Lease → Option String → Result Attachment
  attach_device r lease none = err (missing_resource_attribute "rdma.device")
  attach_device r lease (some device) =
      attach_live r lease device (or_one (get "rdma.port" r.attributes))
        (find_id r.id (rdma_resources r.node))

  unfoldable pub attach_rdma : Resource → Lease → Result Attachment
  attach_rdma r lease =
      if not (starts_with r.id "local.rdma.")
      then err (missing_resource_attribute "rdma.device")
      else attach_device r lease (get "rdma.device" r.attributes)

  unfoldable pub active_texts : List Resource → List String
  active_texts [] = []
  active_texts (r ∷ rs) =
      let rest = active_texts rs in
      if is_available r.state
      then cat (or_text (get "rdma.device" r.attributes))
          (cat ":" (or_text (get "rdma.rate" r.attributes)))
        ∷ rest
      else rest

  unfoldable pub active_text : List String → String
  active_text [] = "none"
  active_text (x ∷ xs) = join_texts "," (x ∷ xs)

  unfoldable pub any_text : List String → Bool
  any_text [] = false
  any_text (x ∷ xs) = true

  unfoldable pub rdma_report : AdapterReport
  rdma_report =
      let ports = rdma_resources "local" in
      record {
        name = "rdma";
        scope = "rdma-roce-iwarp-ib";
        healthy = any_text (active_texts ports);
        detail =
            ("rdma.active", active_text (active_texts ports))
            ∷ ("rdma.ports", sys.decimal (length ports))
            ∷ [];
      }

-- The state is sysfs, which the adapter reads anew at each call.
unfoldable pub rdma : Adapter Sys
rdma = record {
  name = "rdma";
  attach = λ r lease sys. (attach_rdma sys r lease, sys);
  detach = default_detach;
  capability_report = rdma_report;
}
