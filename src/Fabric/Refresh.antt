-- ===== src/Fabric/Refresh.antt =====
-- What `refresh_local` and `evict_stale_nodes` leave in the registry.
pub mod Loops
use nauti_virtualizer.Prelude.{
  ℕ, ◌+◌, ◌-◌, ◌≤◌, String, ◌≡◌, refl, ap, ◌∙◌, Bool, true, false, not, ◌&&◌, ◌||◌, Option, none,
  some, List, [], ◌∷◌, arith, contains, ltb,
}
use nauti_virtualizer.Dict.{
  Dict, get, contains_key, contains_key-some, insert, remove, retain, get-retain, get-insert,
  get-remove,
}
use nauti_virtualizer.Resource.{Resource, resource_already_leased}
use nauti_virtualizer.Fabric.{
  Fabric, Outcome, ok, err, panic, continue, pure, instant_sub, unregister,
}
use nauti_virtualizer.Fabric.Sweep.{
  RefreshReport, remove_gone, drop_owned, keys_where, sweep, remove_all, stale_nodes, evict_before,
  evict_at, evict_stale_nodes,
}
use nauti_virtualizer.Fabric.Refresh.Loops.{
  any_kept, contains_key-remove, contains_key-remove_all, contains-keys_where, owned_by_none,
  stale_before, Thinned, drop_owned-Thinned,
}

module _ {W : Type 0} where
  continue-pure :
      {A B : Type 0} (o : Outcome A) (b : B) (f : Fabric W) → (continue o (λ _. pure b) f).1 ≡ f
  continue-pure (ok a) b f = refl
  continue-pure (err e) b f = refl
  continue-pure panic b f = refl

  sweep-Thinned :
      (stale owned : List String) (f : Fabric W)
      → f.leases_poisoned ≡ false
      → (stale ≡ [] → (k : String) → contains owned k ≡ false)
      → Thinned owned f (sweep stale owned f).1
  unfolding sweep
  sweep-Thinned [] owned f sound unowned = record {
    heartbeats = refl;
    leases = refl;
    sound = sound;
    rest = λ k. ground (arith, unowned refl k);
  }
  sweep-Thinned (n ∷ ns) owned f sound unowned =
      rw (continue-pure (drop_owned owned f).0 (n ∷ ns) (drop_owned owned f).1)
        (drop_owned-Thinned owned f sound)

  evict_before_registry :
      (cutoff : ℕ) (f : Fabric W) (node k : String) (r : Resource)
      → f.leases_poisoned ≡ false
      → get k f.resources ≡ some r
      → let g = (evict_before cutoff f).1 in
        let stale : String → Bool = λ n. any_kept (λ seen. ltb seen cutoff) (get n f.heartbeats) in
        (contains_key node g.heartbeats ≡ (contains_key node f.heartbeats && not (stale node)))
        × (contains_key k g.resources ≡ (not (stale r.node) || contains_key k f.leases))
        × (g.leases ≡ f.leases)
  unfolding evict_before stale_nodes
  evict_before_registry cutoff f node k r sound found =
      let test : ℕ → Bool = λ seen. ltb seen cutoff in
      let stale = stale_nodes cutoff f in
      let owned = keys_where (λ x. contains stale x.node) f.resources in
      let t =
        sweep-Thinned stale owned (record f { heartbeats = remove_all stale f.heartbeats }) sound
          (owned_by_none stale f.resources) in
      (
        ap (contains_key node) t.heartbeats
            ∙ contains_key-remove_all stale node f.heartbeats
            ∙ ground (arith, contains-keys_where test node f.heartbeats),
        t.rest k
            ∙ ground (
              arith,
              contains-keys_where (λ x. contains stale x.node) k f.resources,
              found,
              contains-keys_where test r.node f.heartbeats,
              contains_key-some k f.resources found,
            ),
        t.leases,
      )

  cutoff_of :
      (older_than now : ℕ) (f : Fabric W)
      → older_than ≤ now
      → evict_stale_nodes older_than now f ≡ evict_before (now - older_than) f
  unfolding evict_stale_nodes
  cutoff_of older_than now f fits =
      ap (λ c. evict_at c f) {x = instant_sub now older_than} {y = some (now - older_than)}
        (ground arith)

  -- On a sound lock, with an `older_than` that does not reach back before the earliest instant:
  -- any node goes exactly when its last heartbeat is more than `older_than` old. A registered
  -- resource goes exactly when its own node goes by that test and no entry, expired or not, stands
  -- for it in the lease table. The lease table stays.
  pub evict_stale_nodes_registry :
      (older_than now : ℕ) (f : Fabric W) (node k : String) (r : Resource)
      → older_than ≤ now
      → f.leases_poisoned ≡ false
      → get k f.resources ≡ some r
      → let g = (evict_stale_nodes older_than now f).1 in
        let stale : String → Bool =
          λ n. any_kept (λ seen. ltb (seen + older_than) now) (get n f.heartbeats) in
        (contains_key node g.heartbeats ≡ (contains_key node f.heartbeats && not (stale node)))
        × (contains_key k g.resources ≡ (not (stale r.node) || contains_key k f.leases))
        × (g.leases ≡ f.leases)
  evict_stale_nodes_registry older_than now f node k r fits sound found =
      rw (cutoff_of older_than now f fits) (
        rw (← stale_before older_than now (get r.node f.heartbeats) fits) (
          rw (← stale_before older_than now (get node f.heartbeats) fits)
            (evict_before_registry (now - older_than) f node k r sound found)))
