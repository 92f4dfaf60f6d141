-- ===== src/Vmm/Launches.antt =====
-- `attach` and `reconcile` of nauti-fabric/src/vmm/cloud_hypervisor.rs.
use Prim.Native.String.{◌++◌ as cat}
use nauti_virtualizer.Prelude.{
  String, Bool, true, false, not, Option, none, some, List, [], ◌∷◌, str_eq, if◌then◌else◌,
}
use nauti_virtualizer.Dict.{Dict, get, contains_key, insert, remove, values}
use nauti_virtualizer.Resource.{
  Resource, Lease, Attachment, Result, ok, err, FabricError, same_kind, device,
  incompatible_resource_kind, adapter_backend_unavailable,
}
use nauti_virtualizer.Fabric.{Adapter}
use nauti_virtualizer.Adapters.{default_detach}
use nauti_virtualizer.Vmm.{Driver, ManagedVm, State, require_attr, value_or, build_argv}

-- `bool::to_string`
unfoldable pub bool_text : Bool → String
bool_text true = "true"
bool_text false = "false"

unfoldable pub detail_map : String → String → String → Bool → Dict String
unfolding bool_text
detail_map binary api_socket vm_name already_running =
    ("vmm.api_socket", api_socket)
    ∷ ("vmm.binary", binary)
    ∷ ("vmm.launched_by_adapter", bool_text (not already_running))
    ∷ ("vmm.vm_name", vm_name)
    ∷ []

unfoldable pub attached : Resource → Lease → String → String → String → Bool → Attachment
attached r lease binary api_socket vm_name already_running = record {
  resource_id = r.id;
  lease_id = lease.id;
  adapter = "cloud-hypervisor";
  details = detail_map binary api_socket vm_name already_running;
}

unfoldable pub unavailable : String → FabricError
unavailable reason = adapter_backend_unavailable "cloud-hypervisor" reason

-- The VM that is managed under the resource has that name.
unfoldable pub manages : Option ManagedVm → String → Bool
manages none vm_name = false
manages (some vm) vm_name = str_eq vm.vm_name vm_name

abbrev is_found : Option String → Bool
is_found none = false
is_found (some path) = true

module _ {W : Type 0} (d : Driver W) where
  unfoldable pub record_managed : Resource → String → String → State W → State W
  record_managed r api_socket vm_name s = record s {
    managed =
        insert r.id (record { resource_id = r.id; api_socket = api_socket; vm_name = vm_name })
          s.managed;
  }

  -- The launch, with its command line.
  unfoldable pub launched :
      Resource
      → Lease
      → String
      → String
      → String
      → Option String × W
      → State W
      → Result Attachment × State W
  launched r lease binary api_socket vm_name (some reason, w) s =
      (err (unavailable reason), record s { host = w })
  launched r lease binary api_socket vm_name (none, w) s = (
    ok (attached r lease binary api_socket vm_name false),
    record_managed r api_socket vm_name (record s { host = w }),
  )

  unfoldable pub launch :
      Resource
      → Lease
      → String
      → String
      → String
      → Result (List String)
      → State W
      → Result Attachment × State W
  unfolding launched
  launch r lease binary api_socket vm_name (err e) s = (err e, s)
  launch r lease binary api_socket vm_name (ok argv) s =
      launched r lease binary api_socket vm_name (d.launch_vm binary argv s.host) s

  unfoldable pub provisioned :
      Resource
      → Lease
      → String
      → String
      → String
      → Option String × W
      → State W
      → Result Attachment × State W
  unfolding launch
  provisioned r lease binary api_socket vm_name (some reason, w) s =
      (err (unavailable reason), record s { host = w })
  provisioned r lease binary api_socket vm_name (none, w) s =
      launch r lease binary api_socket vm_name (build_argv r) (record s { host = w })

  -- The tap, if the resource names one.
  unfoldable pub network : Resource → W → Option String × W
  network r w =
      if contains_key "vmm.net" r.attributes then d.provision r.attributes w else (none, w)

  -- From the probe of the API socket on.
  unfoldable pub probed :
      Resource → Lease → String → String → String → Bool × W → State W → Result Attachment × State W
  unfolding provisioned
  probed r lease binary api_socket vm_name (true, w) s = (
    ok (attached r lease binary api_socket vm_name true),
    record_managed r api_socket vm_name (record s { host = w }),
  )
  probed r lease binary api_socket vm_name (false, w) s =
      provisioned r lease binary api_socket vm_name (network r w) (record s { host = w })

  -- From the two tests for a VM that is there on.
  unfoldable pub start :
      Resource → Lease → String → String → String → State W → Result Attachment × State W
  unfolding probed
  start r lease binary api_socket vm_name s =
      if manages (get r.id s.managed) vm_name
      then (ok (attached r lease binary api_socket vm_name true), s)
      else probed r lease binary api_socket vm_name (d.vm_is_running api_socket s.host) s

  unfoldable pub with_socket :
      Resource → Lease → String → Result String → State W → Result Attachment × State W
  unfolding start
  with_socket r lease binary (err e) s = (err e, s)
  with_socket r lease binary (ok api_socket) s =
      start r lease binary api_socket (value_or (get "vmm.vm_name" r.attributes) r.id) s

  unfoldable pub with_binary :
      String → Resource → Lease → Option String → State W → Result Attachment × State W
  unfolding with_socket
  with_binary path r lease none s =
      (err (unavailable (cat "cloud-hypervisor binary not found at " path)), s)
  with_binary path r lease (some binary) s =
      with_socket r lease binary (require_attr r.attributes "vmm.api_socket") s

  unfoldable pub attach : String → Resource → Lease → State W → Result Attachment × State W
  unfolding with_binary
  attach path r lease s =
      if same_kind r.kind device
      then with_binary path r lease (d.locate_binary path s.host) s
      else (err (incompatible_resource_kind "cloud-hypervisor" device r.kind), s)

  -- One VM of `reconcile`, with what its removal answered.
  unfoldable pub removed : ManagedVm → Option String × W → State W → State W
  removed vm (some error, w) s = record s { host = w }
  removed vm (none, w) s = record s { managed = remove vm.resource_id s.managed; host = w }

  -- `Ok(resource_id)`, or the error of the removal
  unfoldable pub outcome : ManagedVm → Option String → Bool × String
  outcome vm none = (true, vm.resource_id)
  outcome vm (some error) = (false, error)

  unfoldable pub reconcile_all : List ManagedVm → State W → List (Bool × String) × State W
  unfolding removed outcome
  reconcile_all [] s = ([], s)
  reconcile_all (vm ∷ vms) s =
      let r = d.remove_vm vm.api_socket vm.vm_name s.host in
      let rest = reconcile_all vms (removed vm r s) in (outcome vm (r.0) ∷ rest.0, rest.1)

  unfoldable pub reconcile : State W → List (Bool × String) × State W
  unfolding reconcile_all
  reconcile s = reconcile_all (values s.managed) s

  -- The adapter as the fabric sees it; the text of the launcher's type is a parameter. It has no
  -- `detach` of its own.
  unfoldable pub cloud_hypervisor : String → String → Adapter (State W)
  unfolding attach default_detach
  cloud_hypervisor path launcher = record {
    name = "cloud-hypervisor";
    attach = attach path;
    detach = default_detach;
    capability_report = λ s. record {
      name = "cloud-hypervisor";
      scope = "vmm-runtime";
      healthy = is_found (d.locate_binary path s.host);
      detail = ("launcher", launcher) ∷ ("vmm.binary", path) ∷ [];
    };
  }
