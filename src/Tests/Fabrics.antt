-- ===== src/Tests/Fabrics.antt =====
-- The theorems on `Fabric` of nauti-fabric/src/lib.rs at one node with one GPU.
use nauti_virtualizer.Prelude.{
  Bool, String, ◌+◌, String, true, false, not, ◌||◌, ◌&&◌, ◌≡◌, ◌≢◌, ◌↔◌, inl, inr, refl, none,
  some, [], ◌∷◌, arith, ltb, ap, sym, ◌∙◌, eq_iff, str_eq, Bool-cases,
}
use nauti_virtualizer.Dict.{get, contains_key, retain}
use nauti_virtualizer.Resource.{Resource, Attachment, lease_not_found, resource_not_found}
use nauti_virtualizer.Fabric.{
  ok, err, panic, lease_exclusive, renew_lease, attach, release, find_available, unregister,
  new_lease, unregister_check, unregister_remove, ActiveLease,
}
use nauti_virtualizer.Fabric.Sweep.{evict_stale_nodes}
use nauti_virtualizer.Fabric.Step.{beats, attaches, leases, run}
use nauti_virtualizer.Fabric.Valid.{IsValid}
use nauti_virtualizer.Fabric.Numbers.{run-IsValid}
use nauti_virtualizer.Fabric.Exclusion.{exclusive_until_deadline}
use nauti_virtualizer.Fabric.Leasing.{
  Leasable, Attachable, lease_exclusive_iff, lease_exclusive_effect, renew_lease_ok, attach_iff,
}
use nauti_virtualizer.Fabric.Poison.{overflow_disables_leasing}
use nauti_virtualizer.Fabric.Expiry.{release_after_failed_detach}
use nauti_virtualizer.Fabric.Race.{unregister_orphans_lease}
use nauti_virtualizer.Fabric.Refresh.Loops.{any_kept}
use nauti_virtualizer.Fabric.Refresh.{evict_stale_nodes_registry}
use nauti_virtualizer.Tests.Samples.{card, held, entry, stuck, idle, busy, plugged, any_gpu}

exclusive_until_deadline_example :
    (lease_exclusive 1000 "gpu.0" "bob" 5 40 40 (
      run 1000
        (beats "local" 20 ∷ attaches "plain" held 30 ∷ [])
        (lease_exclusive 1000 "gpu.0" "alice" 40 10 10 idle).1)).0
    ≢ ok (record { id = 2; resource_id = "gpu.0"; owner = "bob" })
unfolding lease_exclusive get contains_key retain
exclusive_until_deadline_example =
    exclusive_until_deadline 1000 "alice" 40 10 10 idle held
      (beats "local" 20 ∷ attaches "plain" held 30 ∷ []) "bob" 5 40 40
      (record { id = 2; resource_id = "gpu.0"; owner = "bob" }) refl (tt, (tt, tt)) (omega arith)

card_is :
    (k : String) (r : Resource)
    → str_eq "gpu.0" k ≡ true
    → get k (("gpu.0", card) ∷ []) ≡ some r
    → card ≡ r
unfolding get
card_is k r same e = ground (arith, e, same)

card_keyed : (k : String) (r : Resource) → get k (("gpu.0", card) ∷ []) ≡ some r → r.id ≡ k
unfolding get
card_keyed k r e = elim (Bool-cases (str_eq "gpu.0" k)) [
  | inl same ↦ ap (λ x. x.id) (sym (card_is k r same e)) ∙ (eq_iff "gpu.0" k).0 same
  | inr other ↦ absurd (ground (arith, e, other))
]

no_lease : {A : Type 0} (k : String) (a : ActiveLease) → get {V = ActiveLease} k [] ≡ some a → A
unfolding get
no_lease k a e = absurd (ground (arith, e))

idle-IsValid : IsValid idle
idle-IsValid = record {
  resources_keyed = card_keyed;
  leases_keyed = λ k a e. no_lease k a e;
  leases_registered = λ k a e. no_lease k a e;
  ids_issued = λ k a e. no_lease k a e;
  ids_distinct = λ j k a b e d s. no_lease j a e;
}

run-IsValid_example :
    IsValid (run 1000 (leases "gpu.0" "alice" 40 10 10 ∷ attaches "plain" held 20 ∷ []) idle)
run-IsValid_example =
    run-IsValid 1000 (leases "gpu.0" "alice" 40 10 10 ∷ attaches "plain" held 20 ∷ []) idle
      (omega arith) idle-IsValid

idle-Leasable : Leasable 1000 "gpu.0" 40 10 10 idle
unfolding get contains_key retain
idle-Leasable = record {
  resource = card;
  registered = refl;
  available = refl;
  exclusive = refl;
  unpoisoned = refl;
  free = refl;
  representable = omega arith;
}

lease_exclusive_iff_example :
    ((lease_exclusive 1000 "gpu.0" "alice" 40 10 10 idle).0 ≡ ok (new_lease "gpu.0" "alice" idle))
    ↔ Leasable 1000 "gpu.0" 40 10 10 idle
lease_exclusive_iff_example = lease_exclusive_iff 1000 "gpu.0" "alice" 40 10 10 idle

renew_lease_ok_example :
    ((renew_lease 1000 held 30 40 41 busy).0 ≡ ok held)
    × (get "gpu.0" (renew_lease 1000 held 30 40 41 busy).1.leases
        ≡ some (record entry { expires_at = 71 }))
unfolding get
renew_lease_ok_example =
    renew_lease_ok 1000 held 30 40 41 busy entry refl refl refl (omega arith) (omega arith)

attach_iff_example :
    ((x : Attachment) × ((attach "plain" held 20 busy).0 ≡ ok x)) ↔ Attachable "plain" held 20 busy
attach_iff_example = attach_iff "plain" held 20 busy

release_after_failed_detach_example :
    ((release held plugged).0 ≡ err lease_not_found)
    × (get "gpu.0" (release held plugged).1.leases ≡ some entry)
    × ((release held (release held plugged).1).0 ≡ ok tt)
    × ((release held (release held plugged).1).1.world ≡ 0)
    × (get "gpu.0" (release held (release held plugged).1).1.leases ≡ none)
unfolding get
release_after_failed_detach_example =
    release_after_failed_detach held plugged card entry "stuck" stuck lease_not_found refl refl refl
      refl refl refl refl

overflow_disables_leasing_example :
    let g =
      run 1000 (beats "local" 12 ∷ []) (lease_exclusive 1000 "gpu.0" "alice" 2000 10 10 idle).1 in
    ((release held g).0 ≡ panic)
    × ((find_available any_gpu g).0 ≡ panic)
    × ((unregister "gpu.0" g).0 ≡ panic)
    × ((renew_lease 1000 held 5 13 14 g).0 ≡ panic)
unfolding get
overflow_disables_leasing_example =
    overflow_disables_leasing 1000 "gpu.0" "alice" 2000 10 10 idle card (beats "local" 12 ∷ []) held
      any_gpu 5 13 14 refl refl refl refl (omega arith)

unregister_orphans_lease_example :
    let checked = unregister_check "gpu.0" idle in
    let leased = lease_exclusive 1000 "gpu.0" "alice" 40 10 10 checked.1 in
    let removed = unregister_remove "gpu.0" leased.1 in
    (checked.0 ≡ ok tt)
    × (leased.0 ≡ ok (new_lease "gpu.0" "alice" idle))
    × (removed.0 ≡ ok true)
    × (get "gpu.0" removed.1.leases
        ≡ some (record { lease = new_lease "gpu.0" "alice" idle; expires_at = 50 }))
    × ((attach "plain" (new_lease "gpu.0" "alice" idle) 20 removed.1).0 ≡ err resource_not_found)
unfolding get
unregister_orphans_lease_example =
    unregister_orphans_lease 1000 "gpu.0" "alice" "plain" 40 10 10 20 idle idle-Leasable refl

evict_stale_nodes_registry_example :
    let g = (evict_stale_nodes 10 100 busy).1 in
    let stale : String → Bool =
      λ n. any_kept (λ seen. ltb (seen + 10) 100) (get n busy.heartbeats) in
    (contains_key "local" g.heartbeats
      ≡ (contains_key "local" busy.heartbeats && not (stale "local")))
    × (contains_key "gpu.0" g.resources ≡ (not (stale "local") || contains_key "gpu.0" busy.leases))
    × (g.leases ≡ busy.leases)
unfolding get
evict_stale_nodes_registry_example =
    evict_stale_nodes_registry 10 100 busy "local" "gpu.0" card (omega arith) refl refl

lease_exclusive_effect_example :
    let g = (lease_exclusive 1000 "gpu.0" "alice" 40 10 10 idle).1 in
    (get "gpu.0" g.leases ≡ some entry)
    × (g.next_lease_id ≡ 1)
    × (g.resources ≡ idle.resources)
    × (g.attachments ≡ [])
    × (g.leases_poisoned ≡ false)
unfolding new_lease
lease_exclusive_effect_example =
    lease_exclusive_effect 1000 "gpu.0" "alice" 40 10 10 idle "gpu.0" idle-Leasable
