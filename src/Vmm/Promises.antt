-- ===== src/Vmm/Promises.antt =====
-- What the adapter of nauti-fabric/src/vmm/cloud_hypervisor.rs promises: one VM per resource.
use Prim.Native.String.{◌++◌ as cat}
use nauti_virtualizer.Prelude.{
  String, Bool, true, false, ◌≡◌, refl, ap, subst, ◌∙◌, Option, none, some, List, eq_refl, arith,
}
use nauti_virtualizer.Dict.{Dict, get, get-insert}
use nauti_virtualizer.Resource.{Resource, Lease, Attachment, Result, ok, err, same_kind, device}
use nauti_virtualizer.Adapters.{default_detach}
use nauti_virtualizer.Vmm.{Driver, State, require_attr, value_or, build_argv}
use nauti_virtualizer.Vmm.Launches.{
  manages, record_managed, attached, launched, launch, provisioned, probed, network, start,
  unavailable, with_socket, with_binary, attach, cloud_hypervisor,
}

require_attr-ok :
    (attrs : Dict String) (key v : String) → require_attr attrs key ≡ ok v → get key attrs ≡ some v
unfolding require_attr
require_attr-ok attrs key v h = ground (arith, h)

module _ {W : Type 0} (d : Driver W) (r : Resource) (lease : Lease) where
  -- The VM of the resource is managed under that name.
  abbrev Held : String → State W → Type 0
  Held name s = manages (get r.id s.managed) name ≡ true

  recorded : (sock name : String) (s : State W) → Held name (record_managed d r sock name s)
  unfolding record_managed manages
  recorded sock name s = ground (
    arith,
    eq_refl name,
    eq_refl r.id,
    get-insert r.id r.id (record { resource_id = r.id; api_socket = sock; vm_name = name })
        s.managed,
  )

  launched-Held :
      (b sock name : String) (q : Option String × W) (s s' : State W) (a : Attachment)
      → launched d r lease b sock name q s ≡ (ok a, s')
      → Held name s'
  unfolding launched
  launched-Held b sock name (some e, w) s s' a h = ground (arith, h)
  launched-Held b sock name (none, w) s s' a h =
      subst (Held name) (ap (λ x. x.1) h) (recorded sock name (record s { host = w }))

  launch-Held :
      (b sock name : String) (argv : Result (List String)) (s s' : State W) (a : Attachment)
      → launch d r lease b sock name argv s ≡ (ok a, s')
      → Held name s'
  unfolding launch
  launch-Held b sock name (err e) s s' a h = ground (arith, h)
  launch-Held b sock name (ok argv) s s' a h =
      launched-Held b sock name (d.launch_vm b argv s.host) s s' a h

  provisioned-Held :
      (b sock name : String) (q : Option String × W) (s s' : State W) (a : Attachment)
      → provisioned d r lease b sock name q s ≡ (ok a, s')
      → Held name s'
  unfolding provisioned
  provisioned-Held b sock name (some e, w) s s' a h = ground (arith, h)
  provisioned-Held b sock name (none, w) s s' a h =
      launch-Held b sock name (build_argv r) (record s { host = w }) s' a h

  probed-Held :
      (b sock name : String) (q : Bool × W) (s s' : State W) (a : Attachment)
      → probed d r lease b sock name q s ≡ (ok a, s')
      → Held name s'
  unfolding probed
  probed-Held b sock name (true, w) s s' a h =
      subst (Held name) (ap (λ x. x.1) h) (recorded sock name (record s { host = w }))
  probed-Held b sock name (false, w) s s' a h =
      provisioned-Held b sock name (network d r w) (record s { host = w }) s' a h

  start-Held :
      (b sock name : String) (s s' : State W) (a : Attachment)
      → start d r lease b sock name s ≡ (ok a, s')
      → Held name s'
  unfolding start
  start-Held b sock name s s' a h =
      ground (arith, h, probed-Held b sock name (d.vm_is_running sock s.host) s s' a)

  vm_name : String
  vm_name = value_or (get "vmm.vm_name" r.attributes) r.id

  socket_found :
      (b : String) (o : Result String) (s s' : State W) (a : Attachment)
      → with_socket d r lease b o s ≡ (ok a, s')
      → (sock : String) × (o ≡ ok sock) × (start d r lease b sock vm_name s ≡ (ok a, s'))
  unfolding with_socket vm_name
  socket_found b (err e) s s' a h = ground (arith, h)
  socket_found b (ok sock) s s' a h = (sock, refl, h)

  binary_found :
      (path : String) (o : Option String) (s s' : State W) (a : Attachment)
      → with_binary d path r lease o s ≡ (ok a, s')
      → (b : String) × (o ≡ some b)
        × (sock : String) × (require_attr r.attributes "vmm.api_socket" ≡ ok sock)
        × (start d r lease b sock vm_name s ≡ (ok a, s'))
  unfolding with_binary
  binary_found path none s s' a h = ground (arith, h)
  binary_found path (some b) s s' a h =
      let (sock, e, started) =
        socket_found b (require_attr r.attributes "vmm.api_socket") s s' a h in
      (b, refl, sock, e, started)

  attach_kind :
      (path : String) (s s' : State W) (a : Attachment)
      → attach d path r lease s ≡ (ok a, s')
      → (same_kind r.kind device ≡ true)
        × (with_binary d path r lease (d.locate_binary path s.host) s ≡ (ok a, s'))
  unfolding attach
  attach_kind path s s' a h = ground (arith, h)

module _ {W : Type 0} (d : Driver W) (r : Resource) where
  start_again :
      (b sock name : String) (other : Lease) (s : State W)
      → manages (get r.id s.managed) name ≡ true
      → start d r other b sock name s ≡ (ok (attached r other b sock name true), s)
  unfolding start
  start_again b sock name other s h = rw h refl

  -- What a later attach of a managed VM answers: the VM is there already, or the host has lost the
  -- binary.
  unfoldable pub again : String → String → Lease → Option String → Result Attachment
  again path sock other none = err (unavailable (cat "cloud-hypervisor binary not found at " path))
  again path sock other (some b) =
      ok (attached r other b sock (value_or (get "vmm.vm_name" r.attributes) r.id) true)

  with_binary-again :
      (path sock : String) (other : Lease) (o : Option String) (s : State W)
      → require_attr r.attributes "vmm.api_socket" ≡ ok sock
      → manages (get r.id s.managed) (value_or (get "vmm.vm_name" r.attributes) r.id) ≡ true
      → with_binary d path r other o s ≡ (again path sock other o, s)
  unfolding with_binary with_socket again
  with_binary-again path sock other none s e held = refl
  with_binary-again path sock other (some b) s e held =
      ap (λ o. with_socket d r other b o s) e
      ∙ start_again b sock (value_or (get "vmm.vm_name" r.attributes) r.id) other s held

  pub attach_again :
      (path : String) (lease other : Lease) (s s' : State W) (a : Attachment) (w : W)
      → attach d path r lease s ≡ (ok a, s')
      → (sock : String) × (get "vmm.api_socket" r.attributes ≡ some sock)
        × (attach d path r other (record s' { host = w })
            ≡ (again path sock other (d.locate_binary path w), record s' { host = w }))
  unfolding attach vm_name
  attach_again path lease other s s' a w h =
      let (kind, found) = attach_kind d r lease path s s' a h in
      let (b, located, sock, socket, started) =
        binary_found d r lease path (d.locate_binary path s.host) s s' a found in
      let held = start-Held d r lease b sock (vm_name d r lease) s s' a started in
      (
        sock,
        require_attr-ok r.attributes "vmm.api_socket" sock socket,
        rw kind (
            with_binary-again path sock other (d.locate_binary path w) (record s' { host = w })
              socket held),
      )

  -- Releasing a VM does not stop it: the detach of this adapter is the trait's own, which changes
  -- nothing, so that after an attach that succeeded and a detach the VM is still managed, and the next
  -- attach finds it while the host has the binary.
  pub detach_keeps_vm :
      (path launcher : String) (lease other : Lease) (s s' : State W) (a : Attachment)
      → attach d path r lease s ≡ (ok a, s')
      → (((cloud_hypervisor d path launcher).detach r lease s').1 ≡ s')
        × (sock : String) × (attach d path r other
              (((cloud_hypervisor d path launcher).detach r lease s').1)
            ≡ (again path sock other (d.locate_binary path s'.host), s'))
  unfolding cloud_hypervisor default_detach
  detach_keeps_vm path launcher lease other s s' a h =
      let (sock, named, same) = attach_again path lease other s s' a s'.host h in (refl, sock, same)
