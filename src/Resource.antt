-- ===== src/Resource.antt =====
-- The resource model of nauti-fabric/src/lib.rs: resources, leases, attachments, reports, errors,
-- and the query `ResourceRequest::matches`. A number is a `u64`; a text is a `String`.
use nauti_virtualizer.Prelude.{
  ℕ, String, Bool, true, false, not, Option, none, some, [], ◌∷◌, ◌&&◌, ◌||◌, leb, str_eq,
}
use nauti_virtualizer.Dict.{Dict, get}

pub data ResourceKind : Type 0 where
  cpu gpu memory storage network device : ResourceKind

pub data ResourceState : Type 0 where
  available unavailable : ResourceState

pub record Resource : Type 0 where
  pub id : String
  pub kind : ResourceKind
  pub capacity : ℕ
  pub unit : String
  pub node : String
  pub state : ResourceState
  pub exclusive : Bool
  pub attributes : Dict String

pub data FabricError : Type 0 where
  resource_not_found resource_unavailable resource_already_leased lease_not_found : FabricError
  adapter_not_found : FabricError
  incompatible_resource_kind : String → ResourceKind → ResourceKind → FabricError
  incompatible_resource_locality : String → String → String → FabricError
  missing_resource_attribute : String → FabricError
  adapter_backend_unavailable : String → String → FabricError
  guest_memory : String → FabricError

pub record Lease : Type 0 where
  pub id : ℕ
  pub resource_id : String
  pub owner : String

pub record Attachment : Type 0 where
  pub resource_id : String
  pub lease_id : ℕ
  pub adapter : String
  pub details : Dict String

pub record AdapterReport : Type 0 where
  pub name : String
  pub scope : String
  pub healthy : Bool
  pub detail : Dict String

-- A `Result` with the error type of the fabric.
pub data Result {ℓ} (A : Type ℓ) : Type ℓ where
  ok : A → Result A
  err : FabricError → Result A

abbrev pub bind {ℓ κ} : {A : Type ℓ} {B : Type κ} → Result A → (A → Result B) → Result B
bind (ok a) f = f a
bind (err e) f = err e

-- `Option::ok_or`
abbrev pub ok_or {ℓ} : {A : Type ℓ} → Option A → FabricError → Result A
ok_or none e = err e
ok_or (some a) e = ok a

-- `==` of the derived `PartialEq`
abbrev pub same_kind : ResourceKind → ResourceKind → Bool
same_kind cpu cpu = true
same_kind gpu gpu = true
same_kind memory memory = true
same_kind storage storage = true
same_kind network network = true
same_kind device device = true
same_kind _ _ = false

abbrev pub is_available : ResourceState → Bool
is_available available = true
is_available unavailable = false

pub record ResourceRequest : Type 0 where
  pub kind : Option ResourceKind
  pub minimum_capacity : Option ℕ
  pub node : Option String
  pub required_attributes : Dict String
  pub exclusive : Bool

-- `Option::is_none_or`
abbrev pub is_none_or {ℓ} : {A : Type ℓ} → Option A → (A → Bool) → Bool
is_none_or none p = true
is_none_or (some a) p = p a

-- `attributes.get(key) == Some(value)`
abbrev has_attribute : Option String → String → Bool
has_attribute none v = false
has_attribute (some w) v = str_eq w v

unfoldable pub has_attributes : Dict String → Dict String → Bool
has_attributes [] attributes = true
has_attributes ((k, v) ∷ rest) attributes =
    has_attribute (get k attributes) v && has_attributes rest attributes

unfoldable pub matches : ResourceRequest → Resource → Bool
matches q r =
    is_available r.state
    && is_none_or q.kind (λ k. same_kind k r.kind)
    && is_none_or q.minimum_capacity (λ c. leb c r.capacity)
    && is_none_or q.node (λ n. str_eq n r.node)
    && (not q.exclusive || r.exclusive)
    && has_attributes q.required_attributes r.attributes
