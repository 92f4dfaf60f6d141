-- ===== src/Rpc.antt =====
-- The requests and responses of nauti-fabric/src/rpc.rs, and `dispatch`. Time is in nanoseconds. A
-- request comes with the two readings of the clock that its method makes; a panic of the method
-- ends the connection's task, and is the outcome here.
pub mod Frame
pub mod Serve
pub mod Policy
use Prim.Native.String.{◌++◌}
use nauti_virtualizer.Prelude.{ℕ, ◌*◌, String, List}
use nauti_virtualizer.Resource.{
  Resource, ResourceKind, Lease, Attachment, ResourceRequest, FabricError, cpu, gpu, memory,
  storage, network, device, resource_not_found, resource_unavailable, resource_already_leased,
  lease_not_found, adapter_not_found, incompatible_resource_kind, incompatible_resource_locality,
  missing_resource_attribute, adapter_backend_unavailable, guest_memory,
}
use nauti_virtualizer.Fabric.{Fabric, Outcome, ok, err, panic}
use nauti_virtualizer.Fabric
use nauti_virtualizer.Fabric.Sweep.{resources}

pub data RpcRequest : Type 0 where
  ping inventory : RpcRequest
  find_available : ResourceRequest → RpcRequest
  lease_exclusive : String → String → ℕ → RpcRequest
  attach : String → Lease → RpcRequest
  release : Lease → RpcRequest
  lease_renew : Lease → ℕ → RpcRequest
  heartbeat : String → RpcRequest

pub record RpcError : Type 0 where
  pub message : String

pub data RpcResponse : Type 0 where
  pong : RpcResponse
  inventory : List Resource → RpcResponse
  find_available : List Resource → RpcResponse
  leased : Lease → RpcResponse
  attached : Attachment → RpcResponse
  released : RpcResponse
  error : RpcError → RpcResponse

-- `{:?}` of a `ResourceKind`
unfoldable pub debug_kind : ResourceKind → String
debug_kind cpu = "Cpu"
debug_kind gpu = "Gpu"
debug_kind memory = "Memory"
debug_kind storage = "Storage"
debug_kind network = "Network"
debug_kind device = "Device"

-- `FabricError::to_string`
unfoldable pub to_string : FabricError → String
unfolding debug_kind
to_string resource_not_found = "resource does not exist"
to_string resource_unavailable = "resource is unavailable"
to_string resource_already_leased = "resource already has an active exclusive lease"
to_string lease_not_found = "lease does not exist or is not owned by this caller"
to_string adapter_not_found = "adapter does not exist"
to_string (incompatible_resource_kind adapter expected actual) =
    "adapter "
    ++ adapter
    ++ " requires "
    ++ debug_kind expected
    ++ ", but resource is "
    ++ debug_kind actual
to_string (incompatible_resource_locality adapter expected actual) =
    "adapter " ++ adapter ++ " requires a " ++ expected ++ " resource, but resource is " ++ actual
to_string (missing_resource_attribute name) =
    "resource does not contain required adapter attribute: " ++ name
to_string (adapter_backend_unavailable adapter reason) =
    "adapter " ++ adapter ++ " backend is unavailable: " ++ reason
to_string (guest_memory reason) = "guest memory allocation failed: " ++ reason

-- `RpcResponse::from(result)`
unfoldable pub respond_with : {A : Type 0} → (A → RpcResponse) → Outcome A → Outcome RpcResponse
unfolding to_string
respond_with f (ok a) = ok (f a)
respond_with f (err e) = ok (RpcResponse.error (record { message = to_string e }))
respond_with f panic = panic

-- `Duration::from_secs`
abbrev pub from_secs : ℕ → ℕ
from_secs s = s * 1_000_000_000

abbrev respond :
    {W A : Type 0} → (A → RpcResponse) → Outcome A × Fabric W → Outcome RpcResponse × Fabric W
respond f r = (respond_with f r.0, r.1)

unfoldable pub dispatch :
    {W : Type 0} → ℕ → RpcRequest → ℕ → ℕ → Fabric W → Outcome RpcResponse × Fabric W
unfolding respond_with
dispatch horizon RpcRequest.ping t0 t1 f = (ok RpcResponse.pong, f)
dispatch horizon RpcRequest.inventory t0 t1 f = (ok (RpcResponse.inventory (resources f)), f)
dispatch horizon (RpcRequest.find_available q) t0 t1 f =
    respond RpcResponse.find_available (Fabric.find_available q f)
dispatch horizon (RpcRequest.lease_exclusive id owner ttl_secs) t0 t1 f =
    respond RpcResponse.leased
      (Fabric.lease_exclusive horizon id owner (from_secs ttl_secs) t0 t1 f)
dispatch horizon (RpcRequest.attach adapter l) t0 t1 f =
    respond RpcResponse.attached (Fabric.attach adapter l t0 f)
dispatch horizon (RpcRequest.release l) t0 t1 f =
    respond (λ _. RpcResponse.released) (Fabric.release l f)
dispatch horizon (RpcRequest.lease_renew l ttl_secs) t0 t1 f =
    respond RpcResponse.leased (Fabric.renew_lease horizon l (from_secs ttl_secs) t0 t1 f)
dispatch horizon (RpcRequest.heartbeat node) t0 t1 f =
    respond (λ _. RpcResponse.pong) (Fabric.heartbeat node t0 f)
