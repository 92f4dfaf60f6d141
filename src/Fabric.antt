-- ===== src/Fabric.antt =====
-- `Fabric` of nauti-fabric/src/lib.rs: the registry, its exclusive leases and its attachments.
-- Each method is an action on the state. An instant is a number, counted from the earliest one that
-- the platform represents; `horizon` is the latest. `Instant + Duration` panics past it, and a panic
-- under the guard of `leases` poisons that mutex, so that every later `lock().expect(…)` panics.
-- The readings of the clock that one `retain` makes, entry by entry, are taken to be equal.
-- An adapter is what `Arc<dyn ResourceAdapter>` offers, over a state `W` that all adapters share.
pub mod Sweep
pub mod Valid
pub mod Keeps
pub mod Step
pub mod Exclusion
pub mod Leasing
pub mod Poison
pub mod Expiry
pub mod Race
pub mod Refresh
pub mod Invariant
pub mod Numbers
use nauti_virtualizer.Prelude.{
  ℕ, ◌+◌, ◌-◌, ◌%◌, ◌^◌, String, Bool, true, false, not, Option, none, some, List, [], ◌∷◌, ltb,
  leb, ◌==◌, ◌&&◌, ◌||◌, if◌then◌else◌, keep, contains,
}
use nauti_virtualizer.Dict.{Dict, get, contains_key, insert, remove, retain, values}
use nauti_virtualizer.Resource.{
  Resource, Lease, Attachment, AdapterReport, Result, FabricError, ResourceRequest,
  resource_not_found, resource_unavailable, resource_already_leased, lease_not_found,
  adapter_not_found, is_available, matches,
}
use nauti_virtualizer.Resource

pub record Adapter (W : Type 0) : Type 0 where
  pub name : String
  pub attach : Resource → Lease → W → Result Attachment × W
  pub detach : Resource → Lease → W → Result (Unit {0}) × W
  pub capability_report : W → AdapterReport

pub record ActiveLease : Type 0 where
  pub lease : Lease
  pub expires_at : ℕ

pub record Fabric (W : Type 0) : Type 0 where
  pub resources : Dict Resource
  pub leases : Dict ActiveLease
  pub leases_poisoned : Bool
  pub adapters : Dict (Adapter W)
  pub attachments : Dict String
  pub heartbeats : Dict ℕ
  pub next_lease_id : ℕ
  pub world : W

-- What a call comes back with.
pub data Outcome (A : Type 0) : Type 0 where
  ok : A → Outcome A
  err : FabricError → Outcome A
  panic : Outcome A

abbrev pub Exec : Type 0 → Type 0 → Type 0
Exec W A = Fabric W → Outcome A × Fabric W

abbrev pub u64_mod : ℕ
u64_mod = 2 ^ 64

-- `Instant + Duration`, and `Instant - Duration`
abbrev pub instant_add : ℕ → ℕ → ℕ → Option ℕ
instant_add horizon t d = if leb (t + d) horizon then some (t + d) else none

abbrev pub instant_sub : ℕ → ℕ → Option ℕ
instant_sub t d = if leb d t then some (t - d) else none

abbrev pub continue : {W A B : Type 0} → Outcome A → (A → Exec W B) → Exec W B
continue (ok a) k f = k a f
continue (err e) k f = (err e, f)
continue panic k f = (panic, f)

infixl 5 ◌>>=◌ ◌>>◌
abbrev pub ◌>>=◌ : {W A B : Type 0} → Exec W A → (A → Exec W B) → Exec W B
◌>>=◌ m k f = continue (m f).0 k (m f).1

abbrev pub ◌>>◌ : {W B : Type 0} → Exec W (Unit {0}) → Exec W B → Exec W B
m >> k = m >>= λ _. k

-- `active.expires_at > now`
unfoldable pub unexpired : ℕ → ActiveLease → Bool
unexpired now a = ltb now a.expires_at

unfoldable pub offered : ResourceRequest → Dict ActiveLease → Resource → Bool
offered q leases r = matches q r && (not r.exclusive || not (contains_key r.id leases))

-- `active.lease.id == lease.id && active.expires_at > now`
unfoldable pub authorizes : Lease → ℕ → Option ActiveLease → Bool
unfolding unexpired
authorizes lease now none = false
authorizes lease now (some a) = (a.lease.id == lease.id) && unexpired now a

-- `Some(active) if active.lease.id == lease.id`, whatever the time
unfoldable pub owns : Lease → Option ActiveLease → Bool
owns lease none = false
owns lease (some a) = a.lease.id == lease.id

module _ {W : Type 0} where
  abbrev pub pure : {A : Type 0} → A → Exec W A
  pure a f = (ok a, f)

  abbrev pub gets : {A : Type 0} → (Fabric W → A) → Exec W A
  gets g f = (ok (g f), f)

  abbrev pub modify : (Fabric W → Fabric W) → Exec W (Unit {0})
  modify g f = (ok tt, g f)

  abbrev pub guard : Bool → FabricError → Exec W (Unit {0})
  guard true e f = (ok tt, f)
  guard false e f = (err e, f)

  abbrev pub or_fail : {A : Type 0} → Option A → FabricError → Exec W A
  or_fail none e f = (err e, f)
  or_fail (some a) e f = (ok a, f)

  -- `self.leases.lock().expect(…)`
  unfoldable pub lock_leases : Exec W (Unit {0})
  lock_leases f = if f.leases_poisoned then (panic, f) else (ok tt, f)

  unfoldable pub register : Resource → Exec W (Unit {0})
  register r f = (ok tt, record f { resources = insert r.id r f.resources })

  -- The two critical sections of `unregister`: the guard on `leases` is dropped in between.
  unfoldable pub unregister_check : String → Exec W (Unit {0})
  unfolding lock_leases
  unregister_check resource_id = do
    lock_leases
    leased ← gets (λ f. contains_key resource_id f.leases)
    guard (not leased) resource_already_leased

  unfoldable pub unregister_remove : String → Exec W Bool
  unregister_remove resource_id f = (
    ok (contains_key resource_id f.resources),
    record f { resources = remove resource_id f.resources },
  )

  unfoldable pub unregister : String → Exec W Bool
  unfolding unregister_check unregister_remove
  unregister resource_id = do unregister_check resource_id; unregister_remove resource_id

  unfoldable pub register_adapter : Adapter W → Exec W (Unit {0})
  register_adapter a f = (ok tt, record f { adapters = insert a.name a f.adapters })

  -- `resource(id).ok_or(ResourceNotFound)`
  unfoldable pub require : String → Exec W Resource
  require resource_id f = or_fail (get resource_id f.resources) resource_not_found f

  unfoldable pub prune : ℕ → Exec W (Unit {0})
  unfolding unexpired
  prune now f = (ok tt, record f { leases = retain (unexpired now) f.leases })

  -- The insertion of the new entry; the deadline is computed on the way, after `fetch_add`.
  unfoldable pub record_lease : Lease → Option ℕ → Exec W Lease
  record_lease lease none f = (panic, record f { next_lease_id = lease.id; leases_poisoned = true })
  record_lease lease (some t) f = (
    ok lease,
    record f {
      next_lease_id = lease.id;
      leases = insert lease.resource_id (record { lease = lease; expires_at = t }) f.leases;
    },
  )

  -- `fetch_add(1) + 1`
  unfoldable pub new_lease : String → String → Fabric W → Lease
  new_lease resource_id owner f = record {
    id = (f.next_lease_id + 1) % u64_mod;
    resource_id = resource_id;
    owner = owner;
  }

  unfoldable pub grant : ℕ → String → String → ℕ → ℕ → Exec W Lease
  unfolding record_lease new_lease
  grant horizon resource_id owner ttl now f =
      record_lease (new_lease resource_id owner f) (instant_add horizon now ttl) f

  -- The second half of `lease_exclusive`, under the guard of `leases`.
  unfoldable pub lease_section : ℕ → String → String → ℕ → ℕ → ℕ → Exec W Lease
  unfolding lock_leases prune grant
  lease_section horizon resource_id owner ttl pruned granted = do
    lock_leases
    prune pruned
    held ← gets (λ f. contains_key resource_id f.leases)
    guard (not held) resource_already_leased
    grant horizon resource_id owner ttl granted

  -- `pruned` and `granted` are the two readings of the clock.
  unfoldable pub lease_exclusive : ℕ → String → String → ℕ → ℕ → ℕ → Exec W Lease
  unfolding require lease_section
  lease_exclusive horizon resource_id owner ttl pruned granted = do
    resource ← require resource_id
    guard (is_available resource.state) resource_unavailable
    guard resource.exclusive resource_unavailable
    lease_section horizon resource_id owner ttl pruned granted

  unfoldable pub find_available : ResourceRequest → Exec W (List Resource)
  unfolding lock_leases offered
  find_available q = do lock_leases; gets (λ f. keep (offered q f.leases) (values f.resources))

  unfoldable pub lift : {A : Type 0} → Result A × W → Exec W A
  lift (Result.ok a, w) f = (ok a, record f { world = w })
  lift (Result.err e, w) f = (err e, record f { world = w })

  unfoldable pub call_attach : Adapter W → Resource → Lease → Exec W Attachment
  unfolding lift
  call_attach a r l f = lift (a.attach r l f.world) f

  unfoldable pub call_detach : Adapter W → Resource → Lease → Exec W (Unit {0})
  unfolding lift
  call_detach a r l f = lift (a.detach r l f.world) f

  unfoldable pub attach : String → Lease → ℕ → Exec W Attachment
  unfolding require lock_leases authorizes call_attach
  attach adapter_name lease now = do
    resource ← require lease.resource_id
    lock_leases
    authorized ← gets (λ f. authorizes lease now (get lease.resource_id f.leases))
    guard authorized lease_not_found
    found ← gets (λ f. get adapter_name f.adapters)
    adapter ← or_fail found adapter_not_found
    attachment ← call_attach adapter resource lease
    modify (λ f. record f { attachments = insert lease.resource_id adapter_name f.attachments })
    pure attachment

  unfoldable pub release_check : Lease → Exec W (Unit {0})
  unfolding lock_leases owns
  release_check lease = do
    lock_leases
    owned ← gets (λ f. owns lease (get lease.resource_id f.leases))
    guard owned lease_not_found

  -- `attachments.remove(id)`
  unfoldable pub take_attachment : String → Exec W (Option String)
  take_attachment resource_id f = (
    ok (get resource_id f.attachments),
    record f { attachments = remove resource_id f.attachments },
  )

  unfoldable pub detach_with : Lease → Option Resource → Option (Adapter W) → Exec W (Unit {0})
  unfolding call_detach
  detach_with lease (some r) (some a) = call_detach a r lease
  detach_with lease _ _ = pure tt

  unfoldable pub detach_named : Lease → Option String → Exec W (Unit {0})
  unfolding detach_with
  detach_named lease none f = (ok tt, f)
  detach_named lease (some name) f =
      detach_with lease (get lease.resource_id f.resources) (get name f.adapters) f

  unfoldable pub release_detach : Lease → Exec W (Unit {0})
  unfolding take_attachment detach_named
  release_detach lease = do name ← take_attachment lease.resource_id; detach_named lease name

  unfoldable pub release_remove : Lease → Exec W (Unit {0})
  unfolding release_check
  release_remove lease = do
    release_check lease
    modify (λ f. record f { leases = remove lease.resource_id f.leases })

  unfoldable pub release : Lease → Exec W (Unit {0})
  unfolding release_check release_detach release_remove
  release lease = do release_check lease; release_detach lease; release_remove lease

  -- `active.expires_at = Instant::now() + ttl`
  unfoldable pub set_deadline : String → ActiveLease → Option ℕ → Exec W Lease
  set_deadline resource_id a none f = (panic, record f { leases_poisoned = true })
  set_deadline resource_id a (some t) f =
      (ok a.lease, record f { leases = insert resource_id (record a { expires_at = t }) f.leases })

  unfoldable pub renew_entry : ℕ → Lease → ℕ → ℕ → Option ActiveLease → Exec W Lease
  unfolding set_deadline
  renew_entry horizon lease ttl now none f = (err lease_not_found, f)
  renew_entry horizon lease ttl now (some a) f =
      if a.lease.id == lease.id
      then set_deadline lease.resource_id a (instant_add horizon now ttl) f
      else (err lease_not_found, f)

  unfoldable pub renew_lease : ℕ → Lease → ℕ → ℕ → ℕ → Exec W Lease
  unfolding lock_leases prune renew_entry
  renew_lease horizon lease ttl pruned renewed = do
    lock_leases
    prune pruned
    entry ← gets (λ f. get lease.resource_id f.leases)
    renew_entry horizon lease ttl renewed entry

  unfoldable pub heartbeat : String → ℕ → Exec W (Unit {0})
  heartbeat node now f = (ok tt, record f { heartbeats = insert node now f.heartbeats })
