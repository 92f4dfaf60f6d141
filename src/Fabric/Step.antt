-- ===== src/Fabric/Step.antt =====
-- A call of any method of `Fabric`, and what a sequence of calls leaves behind. The calls of the
-- threads that share the fabric are taken one after the other; `Fabric.Race` takes them apart.
use nauti_virtualizer.Prelude.{ℕ, String, List, [], ◌∷◌}
use nauti_virtualizer.Resource.{Resource, Lease, ResourceRequest}
use nauti_virtualizer.Fabric.{
  Fabric, Adapter, register, unregister, register_adapter, lease_exclusive, find_available, attach,
  release, renew_lease, heartbeat,
}
use nauti_virtualizer.Fabric.Sweep.{refresh_local, evict_stale_nodes}

-- The instants of a call are the readings of the clock that it makes, in order.
pub data Call (W : Type 0) : Type 0 where
  registers : Resource → Call W
  unregisters : String → Call W
  registers_adapter : Adapter W → Call W
  leases : String → String → ℕ → ℕ → ℕ → Call W
  finds : ResourceRequest → Call W
  attaches : String → Lease → ℕ → Call W
  releases : Lease → Call W
  renews : Lease → ℕ → ℕ → ℕ → Call W
  beats : String → ℕ → Call W
  refreshes : List Resource → Call W
  evicts : ℕ → ℕ → Call W

module _ {W : Type 0} (horizon : ℕ) where
  unfoldable pub step : Call W → Fabric W → Fabric W
  step (registers r) f = (register r f).1
  step (unregisters id) f = (unregister id f).1
  step (registers_adapter a) f = (register_adapter a f).1
  step (leases id owner ttl pruned granted) f =
      (lease_exclusive horizon id owner ttl pruned granted f).1
  step (finds q) f = (find_available q f).1
  step (attaches name l now) f = (attach name l now f).1
  step (releases l) f = (release l f).1
  step (renews l ttl pruned renewed) f = (renew_lease horizon l ttl pruned renewed f).1
  step (beats node now) f = (heartbeat node now f).1
  step (refreshes discovered) f = (refresh_local discovered f).1
  step (evicts older_than now) f = (evict_stale_nodes older_than now f).1

  unfoldable pub run : List (Call W) → Fabric W → Fabric W
  run [] f = f
  run (c ∷ cs) f = run cs (step c f)
