-- ===== src/Adapters/Promises.antt =====
-- What the adapters of nauti-fabric/src/adapters.rs and nauti-fabric/src/gpu/adapter.rs promise.
use nauti_virtualizer.Prelude.{
  String, true, false, ◌≡◌, refl, ◌↔◌, ◌⊎◌, inr, Option, none, some, [], ◌∷◌, arith, str_eq,
  eq_refl,
}
use nauti_virtualizer.Dict.{Dict, get, get-insert}
use nauti_virtualizer.Resource.{Resource, Lease, Attachment, ok}
use nauti_virtualizer.Adapters.{
  attach_local, attach_network, attachment, GpuReservation, held_by, reserve, attach_gpu, gpu_id_of,
}

-- The local and the network adapter split the resources: one that the local adapter attaches is
-- refused by the network adapter.
pub attach_local-excludes :
    (r : Resource) (lease : Lease) (a b : Attachment)
    → attach_local r lease ≡ ok a
    → attach_network r lease ≡ ok b
    → ⊥
unfolding attach_local attach_network
attach_local-excludes r lease a b h k = ground (arith, h, k)

-- The network adapter attaches exactly the resources of another node that publish an endpoint and
-- a protocol.
pub attach_network_iff :
    (r : Resource) (lease : Lease)
    → ((a : Attachment) × (attach_network r lease ≡ ok a)) ↔ (
        (str_eq r.node "local" ≡ false)
        × (e : String) × (p : String) × (get "network.endpoint" r.attributes ≡ some e)
        × (get "network.protocol" r.attributes ≡ some p))
unfolding attach_network attachment
attach_network_iff r lease = (
  (λ (a, h). ground (arith, h)),
  (λ (remote, e, p, he, hp). (
    attachment r lease "network-resource"
        (("attachment.scope", "network") ∷ ("endpoint", e) ∷ ("protocol", p) ∷ []),
    ground (arith, remote, he, hp),
  )),
)

-- The outcome of a reservation, for one lookup.
reserve_held :
    (r : Resource) (lease : Lease) (o : Option String) (w : Dict GpuReservation) (a : Attachment)
    → (reserve r lease o w).0 ≡ ok a
    → held_by lease.id (get r.id (reserve r lease o w).1) ≡ true
unfolding reserve held_by
reserve_held r lease none w a h = ground (arith, h)
reserve_held r lease (some g) w a h =
    ground
      (arith, h, eq_refl r.id, get-insert r.id r.id (record { lease_id = lease.id; gpu_id = g }) w)

reserve_other :
    (r : Resource) (lease : Lease) (o : Option String) (w : Dict GpuReservation) (j : String)
    → (str_eq r.id j ≡ true) ⊎ (get j (reserve r lease o w).1 ≡ get j w)
unfolding reserve
reserve_other r lease none w j = inr refl
reserve_other r lease (some g) w j =
    ground (arith, get-insert r.id j (record { lease_id = lease.id; gpu_id = g }) w)

-- A GPU that is attached is reserved for that lease, and no other resource's reservation changes.
pub attach_gpu_reserves :
    (r : Resource) (lease : Lease) (w : Dict GpuReservation) (a : Attachment)
    → (attach_gpu r lease w).0 ≡ ok a
    → (held_by lease.id (get r.id (attach_gpu r lease w).1) ≡ true)
      × ((j : String) → (str_eq r.id j ≡ true) ⊎ (get j (attach_gpu r lease w).1 ≡ get j w))
unfolding attach_gpu
attach_gpu_reserves r lease w a h = (
  ground (arith, h, reserve_held r lease (gpu_id_of r) w a),
  λ j. ground (arith, reserve_other r lease (gpu_id_of r) w j),
)
