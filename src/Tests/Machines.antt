-- ===== src/Tests/Machines.antt =====
-- The theorems on the adapter of nauti-fabric/src/vmm/cloud_hypervisor.rs at one VM with a vhost-user
-- device, over a host that counts its VMs.
use nauti_virtualizer.Prelude.{ℕ, suc, String, true, false, none, some, List, [], ◌∷◌}
use nauti_virtualizer.Resource.{Resource, device, available}
use nauti_virtualizer.Vmm.{Driver, State, argv_of}
use nauti_virtualizer.Vmm.Launches.{record_managed}

abbrev driver : Driver ℕ
driver = record {
  locate_binary = λ path w. some path;
  vm_is_running = λ socket w. (false, w);
  launch_vm = λ binary argv w. (none, suc w);
  remove_vm = λ socket name w. (none, w);
  provision = λ attrs w. (none, w);
}

abbrev machine : Resource
machine = record {
  id = "vm.0";
  kind = device;
  capacity = 1;
  unit = "vm";
  node = "local";
  state = available;
  exclusive = true;
  attributes =
      ("vmm.api_socket", "/run/vm0.sock")
      ∷ ("vmm.kernel", "/boot/vmlinux")
      ∷ ("vmm.rootfs", "/var/vm0.img")
      ∷ ("vmm.user_device", "/run/rng.sock")
      ∷ [];
}

abbrev nothing : State ℕ
nothing = record { managed = []; host = 0 }

abbrev line : List String
line = argv_of machine.attributes "/run/vm0.sock" "/boot/vmlinux" "/var/vm0.img"

abbrev rng_args : List String
rng_args = "--generic-vhost-user" ∷ "device_type=rng,socket=/run/rng.sock,queue_sizes=1024" ∷ []

abbrev started : State ℕ
started = record_managed driver machine "/run/vm0.sock" "vm.0" (record { managed = []; host = 1 })
