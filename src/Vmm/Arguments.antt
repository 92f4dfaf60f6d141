-- ===== src/Vmm/Arguments.antt =====
-- The command lines of nauti-fabric/src/vmm/cloud_hypervisor.rs: when they are complete, and shared
-- memory where a backend needs it.
use Prim.Native.String.{◌++◌ as cat}
use nauti_virtualizer.Prelude.{String, ◌≡◌, ◌↔◌, some, List, In, [], ◌∷◌, ◌++◌, arith}
use nauti_virtualizer.Dict.{Dict, get}
use nauti_virtualizer.Resource.{Resource, ok}
use nauti_virtualizer.Vmm.{require_attr, value_or, argv_of, build_argv, flag}

-- A command line is built exactly for a resource that names an API socket, a kernel and a root file
-- system.
pub build_argv_iff :
    (r : Resource)
    → ((argv : List String) × (build_argv r ≡ ok argv)) ↔ (
        (api_socket : String) × (kernel : String) × (rootfs : String) × (get "vmm.api_socket"
            r.attributes
          ≡ some api_socket)
        × (get "vmm.kernel" r.attributes ≡ some kernel)
        × (get "vmm.rootfs" r.attributes ≡ some rootfs))
unfolding build_argv require_attr
build_argv_iff r = (
  (λ (argv, h). ground (arith, h)),
  (λ (a, k, f, ha, hk, hf). (argv_of r.attributes a k f, ground (arith, ha, hk, hf))),
)

shared : Dict String → String
shared attrs =
    cat (cat "size=" (cat (value_or (get "vmm.memory_mib" attrs) "512") "M")) ",shared=on"

-- The type, the socket and the queue sizes of a vhost-user device.
unfoldable pub vhost_user_spec : Dict String → String → String
vhost_user_spec attrs socket = cat "device_type=" (
    cat (value_or (get "vmm.user_device_type" attrs) "rng") (
      cat ",socket=" (
        cat socket
          (cat ",queue_sizes=" (value_or (get "vmm.user_device_queue_sizes" attrs) "1024")))))

-- What makes a VM share its memory, with the arguments that it adds to the command line.
pub data SharedBy (attrs : Dict String) : List String → Type 0 where
  vhost_user :
      (socket : String)
      → get "vmm.user_device" attrs ≡ some socket
      → SharedBy attrs ("--generic-vhost-user" ∷ vhost_user_spec attrs socket ∷ [])
  virtio_fs : (spec : String) → get "vmm.fs" attrs ≡ some spec → SharedBy attrs ("--fs" ∷ spec ∷ [])
  vsock :
      (spec : String) → get "vmm.vsock" attrs ≡ some spec → SharedBy attrs ("--vsock" ∷ spec ∷ [])
  set_on : get "vmm.shared" attrs ≡ some "on" → SharedBy attrs []
  set_true : get "vmm.shared" attrs ≡ some "true" → SharedBy attrs []

-- All of them are among the arguments.
unfoldable pub AllIn : List String → List String → Type 0
AllIn [] argv = Unit
AllIn (x ∷ xs) argv = In x argv × AllIn xs argv

fs_args : Dict String → List String
fs_args attrs = flag "--fs" "" (get "vmm.fs" attrs)

vsock_args : Dict String → List String
vsock_args attrs = flag "--vsock" "" (get "vmm.vsock" attrs)
