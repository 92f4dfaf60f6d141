-- ===== src/Vmm.antt =====
-- The Cloud Hypervisor adapter of nauti-fabric/src/vmm/cloud_hypervisor.rs. Its `Launcher` and its
-- `NetProvisioner` are the parameter `Driver`, over a state `W` of the host: finding the binary,
-- looking at the API socket, starting and removing a VM, and making a tap. A path is its text. The
-- mutex of the managed VMs is never poisoned, since no code under its guard panics.
pub mod Pieces
pub mod Texts
pub mod Launches
pub mod Arguments
pub mod Promises
pub mod Spec
use Prim.Native.String.{◌++◌ as cat}
use nauti_virtualizer.Prelude.{
  ℕ, String, Bool, true, false, ◌||◌, Option, none, some, List, [], ◌∷◌, ◌++◌, str_eq,
  if◌then◌else◌,
}
use nauti_virtualizer.Dict.{Dict, get, contains_key, insert, remove, values}
use nauti_virtualizer.Resource.{
  Resource, Lease, Attachment, AdapterReport, Result, ok, err, bind, ok_or, FabricError, same_kind,
  device, incompatible_resource_kind, missing_resource_attribute, adapter_backend_unavailable,
}
use nauti_virtualizer.Fabric.{Adapter}
use nauti_virtualizer.Adapters.{default_detach}
use nauti_virtualizer.Vmm.Texts.{is_empty, trim_start, trim_end, split_comma}

pub record Driver (W : Type 0) : Type 0 where
  -- The binary at the path, if the host has it at that moment.
  pub locate_binary : String → W → Option String
  -- The probe of an API socket, which may remove a stale one.
  pub vm_is_running : String → W → Bool × W
  -- Nothing, or the text of the error.
  pub launch_vm : String → List String → W → Option String × W
  pub remove_vm : String → String → W → Option String × W
  pub provision : Dict String → W → Option String × W

pub record ManagedVm : Type 0 where
  pub resource_id : String
  pub api_socket : String
  pub vm_name : String

-- The adapter's map of managed VMs, and the host.
pub record State (W : Type 0) : Type 0 where
  pub managed : Dict ManagedVm
  pub host : W

unfoldable pub require_attr : Dict String → String → Result String
require_attr attrs key = ok_or (get key attrs) (missing_resource_attribute key)

unfoldable pub value_or : Option String → String → String
value_or none d = d
value_or (some v) d = v

-- `is_some_and(|value| value == "on" || value == "true")`
unfoldable pub is_on : Option String → Bool
is_on none = false
is_on (some v) = str_eq v "on" || str_eq v "true"

unfoldable pub needs_shared : Dict String → Bool
unfolding is_on
needs_shared attrs =
    contains_key "vmm.user_device" attrs
    || contains_key "vmm.fs" attrs
    || contains_key "vmm.vsock" attrs
    || is_on (get "vmm.shared" attrs)

unfoldable pub memory_arg : Dict String → String
unfolding value_or
memory_arg attrs =
    let size = cat "size=" (cat (value_or (get "vmm.memory_mib" attrs) "512") "M") in
    if needs_shared attrs then cat size ",shared=on" else size

-- `if let Some(v) = attribute { argv.push(flag); argv.push(prefix + v) }`
unfoldable pub flag : String → String → Option String → List String
flag name prefix none = []
flag name prefix (some v) = name ∷ cat prefix v ∷ []

unfoldable pub device_flag : String → List String
unfolding is_empty
device_flag path = if is_empty path then [] else "--device" ∷ cat "path=" path ∷ []

unfoldable pub each_device : List String → List String
unfolding device_flag trim_start trim_end
each_device [] = []
each_device (d ∷ ds) = device_flag (trim_end (trim_start d)) ++ each_device ds

unfoldable pub device_flags : Option String → List String
unfolding each_device split_comma
device_flags none = []
device_flags (some devices) = each_device (split_comma devices)

unfoldable pub user_device_flags : Dict String → Option String → List String
user_device_flags attrs none = []
user_device_flags attrs (some socket) =
    "--generic-vhost-user"
    ∷ cat "device_type=" (
        cat (value_or (get "vmm.user_device_type" attrs) "rng") (
          cat ",socket=" (
            cat socket
              (cat ",queue_sizes=" (value_or (get "vmm.user_device_queue_sizes" attrs) "1024")))))
    ∷ []

unfoldable pub watchdog_flag : Option String → List String
watchdog_flag on = if is_on on then "--watchdog" ∷ [] else []

-- The arguments that every command line has.
unfoldable pub base_args : Dict String → String → String → String → List String
base_args attrs api_socket kernel rootfs =
    "--api-socket"
    ∷ cat "path=" api_socket
    ∷ "--cpus"
    ∷ cat "boot=" (value_or (get "vmm.vcpus" attrs) "1")
    ∷ "--memory"
    ∷ memory_arg attrs
    ∷ "--kernel"
    ∷ kernel
    ∷ "--disk"
    ∷ cat "path=" rootfs
    ∷ "--serial"
    ∷ "tty"
    ∷ "--console"
    ∷ "off"
    ∷ "--rng"
    ∷ cat "src=" (cat (value_or (get "vmm.rng_src" attrs) "/dev/urandom") ",id=ch-builtin-rng")
    ∷ []

-- The disks and devices that attributes add.
unfoldable pub extra_args : Dict String → List String
extra_args attrs =
    flag "--initramfs" "" (get "vmm.initramfs" attrs)
    ++ (flag "--cmdline" "" (get "vmm.cmdline" attrs)
        ++ (flag "--disk" "path=" (get "vmm.virtio_blk" attrs)
            ++ (device_flags (get "vmm.device" attrs) ++ flag "--net" "" (get "vmm.net" attrs))))

-- The devices behind a backend on the host, and the watchdog.
unfoldable pub backend_args : Dict String → List String
backend_args attrs =
    user_device_flags attrs (get "vmm.user_device" attrs)
    ++ (flag "--fs" "" (get "vmm.fs" attrs)
        ++ (flag "--vsock" "" (get "vmm.vsock" attrs) ++ watchdog_flag (get "vmm.watchdog" attrs)))

unfoldable pub argv_of : Dict String → String → String → String → List String
argv_of attrs api_socket kernel rootfs =
    base_args attrs api_socket kernel rootfs ++ (extra_args attrs ++ backend_args attrs)

unfoldable pub build_argv : Resource → Result (List String)
unfolding require_attr
build_argv r = bind (require_attr r.attributes "vmm.api_socket") λ api_socket.
    bind (require_attr r.attributes "vmm.kernel") λ kernel.
      bind (require_attr r.attributes "vmm.rootfs")
        λ rootfs. ok (argv_of r.attributes api_socket kernel rootfs)
