-- ===== src/Vmm/Spec.antt =====
-- `VmResourceSpec` of nauti-fabric/src/vmm/cloud_hypervisor.rs, from which a resource's attributes are
-- made.
use nauti_virtualizer.Prelude.{
  String, Option, none, some, [], ◌∷◌, List, ◌≡◌, refl, if◌then◌else◌, str_eq, arith,
}
use nauti_virtualizer.Dict.{Dict, get, insert, get-insert}
use nauti_virtualizer.Adapters.{note, or_else}

pub record VmResourceSpec : Type 0 where
  pub api_socket : String
  pub kernel : String
  pub rootfs : String
  pub vm_name : Option String
  pub vcpus : Option String
  pub memory_mib : Option String
  pub virtio_blk : Option String
  pub net : Option String
  pub user_device : Option String
  pub user_device_type : Option String
  pub user_device_queue_sizes : Option String
  pub fs : Option String
  pub vsock : Option String
  pub watchdog : Option String
  pub cmdline : Option String
  pub initramfs : Option String
  pub rng_src : Option String
  pub shared : Option String

-- The optional fields with their keys, in the order of the code.
unfoldable pub optional_fields : VmResourceSpec → List (String × Option String)
optional_fields s =
    ("vmm.vm_name", s.vm_name)
    ∷ ("vmm.vcpus", s.vcpus)
    ∷ ("vmm.memory_mib", s.memory_mib)
    ∷ ("vmm.virtio_blk", s.virtio_blk)
    ∷ ("vmm.net", s.net)
    ∷ ("vmm.user_device", s.user_device)
    ∷ ("vmm.user_device_type", s.user_device_type)
    ∷ ("vmm.user_device_queue_sizes", s.user_device_queue_sizes)
    ∷ ("vmm.fs", s.fs)
    ∷ ("vmm.vsock", s.vsock)
    ∷ ("vmm.watchdog", s.watchdog)
    ∷ ("vmm.cmdline", s.cmdline)
    ∷ ("vmm.initramfs", s.initramfs)
    ∷ ("vmm.rng_src", s.rng_src)
    ∷ ("vmm.shared", s.shared)
    ∷ []

-- `if let Some(value) = field { attrs.insert(key, value) }`, one field after another
unfoldable pub insert_all : List (String × Option String) → Dict String → Dict String
insert_all [] attrs = attrs
insert_all ((key, value) ∷ fields) attrs = insert_all fields (note key value attrs)

unfoldable pub required_fields : VmResourceSpec → Dict String
required_fields s =
    insert "vmm.rootfs" s.rootfs
      (insert "vmm.kernel" s.kernel (insert "vmm.api_socket" s.api_socket []))

unfoldable pub into_attributes : VmResourceSpec → Dict String
into_attributes s = insert_all (optional_fields s) (required_fields s)

get-note :
    (k j : String) (v : Option String) (m : Dict String)
    → get j (note k v m) ≡ (if str_eq k j then or_else v (get j m) else get j m)
unfolding note or_else
get-note k j none m = ground arith
get-note k j (some v) m = get-insert k j v m

or_else-none : (o : Option String) → or_else o none ≡ o
unfolding or_else
or_else-none none = refl
or_else-none (some v) = refl

get_nil : (k : String) → get {V = String} k [] ≡ none
unfolding get
get_nil k = refl

-- Each field of a specification is what its key holds.
pub record Reads (s : VmResourceSpec) (attrs : Dict String) : Type 0 where
  pub api_socket : get "vmm.api_socket" attrs ≡ some s.api_socket
  pub kernel : get "vmm.kernel" attrs ≡ some s.kernel
  pub rootfs : get "vmm.rootfs" attrs ≡ some s.rootfs
  pub vm_name : get "vmm.vm_name" attrs ≡ s.vm_name
  pub vcpus : get "vmm.vcpus" attrs ≡ s.vcpus
  pub memory_mib : get "vmm.memory_mib" attrs ≡ s.memory_mib
  pub virtio_blk : get "vmm.virtio_blk" attrs ≡ s.virtio_blk
  pub net : get "vmm.net" attrs ≡ s.net
  pub user_device : get "vmm.user_device" attrs ≡ s.user_device
  pub user_device_type : get "vmm.user_device_type" attrs ≡ s.user_device_type
  pub queue_sizes : get "vmm.user_device_queue_sizes" attrs ≡ s.user_device_queue_sizes
  pub fs : get "vmm.fs" attrs ≡ s.fs
  pub vsock : get "vmm.vsock" attrs ≡ s.vsock
  pub watchdog : get "vmm.watchdog" attrs ≡ s.watchdog
  pub cmdline : get "vmm.cmdline" attrs ≡ s.cmdline
  pub initramfs : get "vmm.initramfs" attrs ≡ s.initramfs
  pub rng_src : get "vmm.rng_src" attrs ≡ s.rng_src
  pub shared : get "vmm.shared" attrs ≡ s.shared

-- The attributes that are made of a specification hold each of its fields under its own key, and no
-- key where a field is absent.
pub into_attributes-Reads : (s : VmResourceSpec) → Reads s (into_attributes s)
unfolding into_attributes insert_all optional_fields required_fields
into_attributes-Reads s = record {
  api_socket = simp (get-note, get-insert);
  kernel = simp (get-note, get-insert);
  rootfs = simp (get-note, get-insert);
  vm_name = simp (get-note, get-insert, get_nil, or_else-none);
  vcpus = simp (get-note, get-insert, get_nil, or_else-none);
  memory_mib = simp (get-note, get-insert, get_nil, or_else-none);
  virtio_blk = simp (get-note, get-insert, get_nil, or_else-none);
  net = simp (get-note, get-insert, get_nil, or_else-none);
  user_device = simp (get-note, get-insert, get_nil, or_else-none);
  user_device_type = simp (get-note, get-insert, get_nil, or_else-none);
  queue_sizes = simp (get-note, get-insert, get_nil, or_else-none);
  fs = simp (get-note, get-insert, get_nil, or_else-none);
  vsock = simp (get-note, get-insert, get_nil, or_else-none);
  watchdog = simp (get-note, get-insert, get_nil, or_else-none);
  cmdline = simp (get-note, get-insert, get_nil, or_else-none);
  initramfs = simp (get-note, get-insert, get_nil, or_else-none);
  rng_src = simp (get-note, get-insert, get_nil, or_else-none);
  shared = simp (get-note, get-insert, get_nil, or_else-none);
}
