-- ===== src/Hardware/Ports.antt =====
-- What the RDMA adapter of nauti-fabric/src/hwinfo.rs promises: an attached port is active now.
use nauti_virtualizer.Prelude.{
  String, Bool, true, false, Option, none, some, List, [], ◌∷◌, ◌++◌, ◌⊎◌, inl, inr, In, ◌≡◌, refl,
  sym, ap, ◌∙◌, arith, str_eq, eq_iff, Bool-cases,
}
use text.Mathlib.Text.{starts_with}
use nauti_virtualizer.Dict.{get}
use nauti_virtualizer.Resource.{Resource, Lease, Attachment, ok, is_available}
use nauti_virtualizer.Hardware.Sysfs.{Sys, join}
use nauti_virtualizer.Hardware.Rdma.{
  link_state, port_id, is_active, port_resource, ports_of, rdma_of, rdma_resources, find_id,
  attach_live, attach_device, attach_rdma, or_one,
}

In-append : {A : Type 0} (a : A) (xs ys : List A) → In a (xs ++ ys) → In a xs ⊎ In a ys
In-append a [] ys m = inr m
In-append a (x ∷ xs) ys (inl e) = inl (inl e)
In-append a (x ∷ xs) ys (inr m) = elim (In-append a xs ys m) [ inl l ↦ inl (inr l) | inr r ↦ inr r ]

module _ (sys : Sys) where
  -- A port that sysfs lists now, and the resource that is made of it.
  pub record IsPort (node : String) (r : Resource) : Type 0 where
    pub device : String
    pub port : String
    pub listed : In device (sys.names (join sys.root "class/infiniband"))
    pub has_port :
        In port (sys.names (join (join (join sys.root "class/infiniband") device) "ports"))
    pub made : port_resource sys node device port ≡ r

  ports_of-made :
      (node name : String) (ports : List String) (r : Resource)
      → In r (ports_of sys node name ports)
      → (port : String) × In port ports × (port_resource sys node name port ≡ r)
  unfolding ports_of
  ports_of-made node name [] r m = absurd m
  ports_of-made node name (p ∷ ports) r (inl e) = (p, inl refl, e)
  ports_of-made node name (p ∷ ports) r (inr m) =
      let (port, at, e) = ports_of-made node name ports r m in (port, inr at, e)

  rdma_of-IsPort :
      (node : String) (devices : List String) (r : Resource)
      → ((d : String) → In d devices → In d (sys.names (join sys.root "class/infiniband")))
      → In r (rdma_of sys node devices)
      → IsPort node r
  unfolding rdma_of
  rdma_of-IsPort node [] r sub m = absurd m
  rdma_of-IsPort node (d ∷ devices) r sub m =
      elim (In-append r
        (ports_of sys node d (sys.names (join (join (join sys.root "class/infiniband") d) "ports")))
        (rdma_of sys node devices) m) [
          | inl here ↦
              let (port, at, e) =
                ports_of-made node d
                  (sys.names (join (join (join sys.root "class/infiniband") d) "ports")) r here in
              record { device = d; port = port; listed = sub d (inl refl); has_port = at; made = e }
          | inr later ↦ rdma_of-IsPort node devices r (λ x at. sub x (inr at)) later
        ]

  find_id-In :
      (id : String) (rs : List Resource) (r : Resource)
      → find_id sys id rs ≡ some r
      → In r rs × (r.id ≡ id)
  unfolding find_id
  find_id-In id [] r h = ground (arith, h)
  find_id-In id (x ∷ rs) r h = elim (Bool-cases (str_eq x.id id)) [
    | inl same ↦
        let here : x ≡ r = ground (arith, h, same) in
        (inl here, ap (λ y. y.id) (sym here) ∙ (eq_iff x.id id).0 same)
    | inr other ↦ let (m, e) = find_id-In id rs r (ground (arith, h, other)) in (inr m, e)
  ]

  link_state-active : (b : Bool) → is_available (link_state b) ≡ true → b ≡ true
  unfolding link_state
  link_state-active true h = refl
  link_state-active false h = ground (arith, h)

  attach_live-found :
      (r : Resource) (lease : Lease) (device port : String) (o : Option Resource) (a : Attachment)
      → attach_live sys r lease device port o ≡ ok a
      → (live : Resource) × (o ≡ some live) × (is_available live.state ≡ true)
  unfolding attach_live
  attach_live-found r lease device port none a h = absurd (ground (arith, h))
  attach_live-found r lease device port (some live) a h = (live, refl, ground (arith, h))

  attach_device-found :
      (r : Resource) (lease : Lease) (o : Option String) (a : Attachment)
      → attach_device sys r lease o ≡ ok a
      → (live : Resource) × (find_id sys r.id (rdma_resources sys r.node) ≡ some live)
        × (is_available live.state ≡ true)
  unfolding attach_device
  attach_device-found r lease none a h = absurd (ground (arith, h))
  attach_device-found r lease (some device) a h =
      attach_live-found r lease device (or_one sys (get "rdma.port" r.attributes))
        (find_id sys r.id (rdma_resources sys r.node)) a h

  attach_rdma-found :
      (r : Resource) (lease : Lease) (a : Attachment)
      → attach_rdma sys r lease ≡ ok a
      → (live : Resource) × (find_id sys r.id (rdma_resources sys r.node) ≡ some live)
        × (is_available live.state ≡ true)
  unfolding attach_rdma
  attach_rdma-found r lease a h = elim (Bool-cases (starts_with r.id "local.rdma.")) [
    | inl e ↦ attach_device-found r lease (get "rdma.device" r.attributes) a (ground (arith, h, e))
    | inr e ↦ absurd (ground (arith, h, e))
  ]

  -- A resource that the adapter attaches is a port that sysfs lists at that moment under the
  -- resource's id, in a state that names it active.
  pub attach_rdma-IsPort :
      (r : Resource) (lease : Lease) (a : Attachment)
      → attach_rdma sys r lease ≡ ok a
      → (device : String) × (port : String) × In device
          (sys.names (join sys.root "class/infiniband"))
        × In port (sys.names (join (join (join sys.root "class/infiniband") device) "ports"))
        × (port_id sys device port ≡ r.id)
        × (is_active sys device port ≡ true)
  unfolding port_resource rdma_resources
  attach_rdma-IsPort r lease a h =
      let (live, found, up) = attach_rdma-found r lease a h in
      let (m, same) = find_id-In r.id (rdma_resources sys r.node) live found in
      let p =
        rdma_of-IsPort r.node (sys.names (join sys.root "class/infiniband")) live (λ d at. at) m in
      (
        p.device,
        p.port,
        p.listed,
        p.has_port,
        ap (λ y. y.id) p.made ∙ same,
        link_state-active (is_active sys p.device p.port)
            (ap (λ y. is_available y.state) p.made ∙ up),
      )
