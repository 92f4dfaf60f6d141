-- ===== src/Fabric/Refresh/Loops.antt =====
-- What the loops of `refresh_local` and `evict_stale_nodes` of nauti-fabric/src/lib.rs take out of the
-- registry.
use nauti_virtualizer.Prelude.{
  ℕ, ◌+◌, ◌-◌, ◌≤◌, String, ◌≡◌, refl, ap, ◌∙◌, Bool, true, false, not, ◌&&◌, ◌||◌, Option, none,
  some, List, [], ◌∷◌, map, arith, eq_iff, str_eq, contains, Bool-cases, inl, inr, ltb,
}
use nauti_virtualizer.Dict.{
  Dict, get, contains_key, keys, insert, remove, retain, get-retain, get-insert, get-remove,
}
use nauti_virtualizer.Resource.{Resource, resource_already_leased}
use nauti_virtualizer.Fabric.{Fabric, ok, err, unregister}
use nauti_virtualizer.Fabric.Sweep.{RefreshReport, remove_gone, drop_owned, keys_where, remove_all}

-- `keys` and `contains_key` agree.
pub contains-keys {ℓ} :
    {V : Type ℓ} (k : String) (m : Dict V) → contains (keys m) k ≡ contains_key k m
unfolding keys contains_key
contains-keys k [] = refl
contains-keys k ((j, v) ∷ m) = ground (arith, contains-keys k m)

-- Whether there is a value, and it passes the test.
abbrev pub any_kept {ℓ} : {V : Type ℓ} → (V → Bool) → Option V → Bool
any_kept p none = false
any_kept p (some v) = p v

unfoldable pub ids : List Resource → List String
ids = map (λ r. r.id)

pub contains_key-remove {ℓ} :
    {V : Type ℓ} (j k : String) (m : Dict V)
    → contains_key k (remove j m) ≡ (not (str_eq j k) && contains_key k m)
unfolding contains_key
contains_key-remove j k m = ground (arith, get-remove j k m)

pub contains_key-insert {ℓ} :
    {V : Type ℓ} (j k : String) (v : V) (m : Dict V)
    → contains_key k (insert j v m) ≡ (str_eq j k || contains_key k m)
unfolding contains_key
contains_key-insert j k v m = ground (arith, get-insert j k v m)

pub contains_key-remove_all {ℓ} :
    {V : Type ℓ} (ks : List String) (j : String) (m : Dict V)
    → contains_key j (remove_all ks m) ≡ (not (contains ks j) && contains_key j m)
unfolding remove_all
contains_key-remove_all [] j m = refl
contains_key-remove_all (k ∷ ks) j m =
    ground (arith, contains_key-remove_all ks j (remove k m), contains_key-remove k j m)

pub contains-keys_where {ℓ} :
    {V : Type ℓ} (p : V → Bool) (k : String) (m : Dict V)
    → contains (keys_where p m) k ≡ any_kept p (get k m)
unfolding keys_where contains_key
contains-keys_where p k m = ground (arith, contains-keys k (retain p m), get-retain p k m)

any_kept_none {ℓ} :
    {V : Type ℓ} (p : V → Bool) (o : Option V) → ((v : V) → p v ≡ false) → any_kept p o ≡ false
any_kept_none p none h = refl
any_kept_none p (some v) h = h v

pub owned_by_none :
    (stale : List String) (rs : Dict Resource)
    → stale ≡ []
    → (k : String) → contains (keys_where (λ r. contains stale r.node) rs) k ≡ false
owned_by_none stale rs e k =
    contains-keys_where (λ r. contains stale r.node) k rs
    ∙ any_kept_none (λ r. contains stale r.node) (get k rs) (λ r. ap (λ ns. contains ns r.node) e)

-- The cutoff on the other side.
pub stale_before :
    (older_than now : ℕ) (o : Option ℕ)
    → older_than ≤ now
    → any_kept (λ seen. ltb seen (now - older_than)) o
      ≡ any_kept (λ seen. ltb (seen + older_than) now) o
stale_before older_than now none fits = refl
stale_before older_than now (some seen) fits = ground arith

module _ {W : Type 0} where
  unregister_unleased :
      (id : String) (f : Fabric W)
      → f.leases_poisoned ≡ false
      → contains_key id f.leases ≡ false
      → unregister id f
        ≡ (ok (contains_key id f.resources), record f { resources = remove id f.resources })
  unfolding unregister
  unregister_unleased id f sound free = ground arith

  unregister_leased :
      (id : String) (f : Fabric W)
      → f.leases_poisoned ≡ false
      → contains_key id f.leases ≡ true
      → unregister id f ≡ (err resource_already_leased, f)
  unfolding unregister
  unregister_leased id f sound held = ground arith

  -- What a loop of `unregister` calls leaves alone, and what stays registered.
  pub record Thinned (gone : List String) (f g : Fabric W) : Type 0 where
    pub heartbeats : g.heartbeats ≡ f.heartbeats
    pub leases : g.leases ≡ f.leases
    pub sound : g.leases_poisoned ≡ false
    pub rest :
        (k : String)
        → contains_key k g.resources
          ≡ (contains_key k f.resources && (not (contains gone k) || contains_key k f.leases))

  Thinned-held :
      (id : String) (gone : List String) (f g : Fabric W)
      → contains_key id f.leases ≡ true
      → Thinned gone f g
      → Thinned (id ∷ gone) f g
  Thinned-held id gone f g held t = record {
    heartbeats = t.heartbeats;
    leases = t.leases;
    sound = t.sound;
    rest = λ k. elim (Bool-cases (str_eq id k)) [
      | inl same ↦
          ground (arith, t.rest k, ap (λ j. contains_key j f.leases) ((eq_iff id k).0 same))
      | inr apart ↦ ground (arith, t.rest k)
    ];
  }

  Thinned-free :
      (id : String) (gone : List String) (f g : Fabric W)
      → contains_key id f.leases ≡ false
      → Thinned gone (record f { resources = remove id f.resources }) g
      → Thinned (id ∷ gone) f g
  Thinned-free id gone f g free t = record {
    heartbeats = t.heartbeats;
    leases = t.leases;
    sound = t.sound;
    rest = λ k. elim (Bool-cases (str_eq id k)) [
      | inl same ↦ ground (
        arith,
        t.rest k,
        contains_key-remove id k f.resources,
        ap (λ j. contains_key j f.leases) ((eq_iff id k).0 same),
      )
      | inr apart ↦ ground (arith, t.rest k, contains_key-remove id k f.resources)
    ];
  }

  pub remove_gone-Thinned :
      (gone : List String) (report : RefreshReport) (f : Fabric W)
      → f.leases_poisoned ≡ false
      → Thinned gone f (remove_gone gone report f).1
  unfolding remove_gone
  remove_gone-Thinned [] report f sound = record {
    heartbeats = refl;
    leases = refl;
    sound = sound;
    rest = λ k. ground arith;
  }
  remove_gone-Thinned (id ∷ gone) report f sound = elim (Bool-cases (contains_key id f.leases)) [
    | inl held ↦
        rw (unregister_leased id f sound held)
          (Thinned-held id gone f _ held (remove_gone-Thinned gone _ f sound))
    | inr free ↦ rw (unregister_unleased id f sound free) (
        Thinned-free id gone f _ free
          (remove_gone-Thinned gone _ (record f { resources = remove id f.resources }) sound))
  ]

  pub drop_owned-Thinned :
      (owned : List String) (f : Fabric W)
      → f.leases_poisoned ≡ false
      → Thinned owned f (drop_owned owned f).1
  unfolding drop_owned
  drop_owned-Thinned [] f sound = record {
    heartbeats = refl;
    leases = refl;
    sound = sound;
    rest = λ k. ground arith;
  }
  drop_owned-Thinned (id ∷ owned) f sound = elim (Bool-cases (contains_key id f.leases)) [
    | inl held ↦
        rw (unregister_leased id f sound held)
          (Thinned-held id owned f _ held (drop_owned-Thinned owned f sound))
    | inr free ↦ rw (unregister_unleased id f sound free) (
        Thinned-free id owned f _ free
          (drop_owned-Thinned owned (record f { resources = remove id f.resources }) sound))
  ]
