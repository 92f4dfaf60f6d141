-- ===== src/Fabric/Valid.antt =====
-- What `Fabric` keeps true of its registry and its leases, and the changes of the two maps that
-- its methods make.
use nauti_virtualizer.Prelude.{
  ℕ, ◌+◌, ◌≤◌, String, ◌≡◌, Bool, true, false, none, some, arith, eq_iff, str_eq, Bool-cases, inl,
  inr,
}
use nauti_virtualizer.Dict.{
  Dict, get, contains_key, insert, remove, retain, get-insert, get-remove, get-retain,
}
use nauti_virtualizer.Resource.{Resource}
use nauti_virtualizer.Fabric.{ActiveLease, Fabric}

-- Entries stand under their own keys, a leased resource is registered, and no two leases share a
-- number, all of which have been issued.
pub record Valid (rs : Dict Resource) (ls : Dict ActiveLease) (n : ℕ) : Type 0 where
  pub resources_keyed : (k : String) (r : Resource) → get k rs ≡ some r → r.id ≡ k
  pub leases_keyed : (k : String) (a : ActiveLease) → get k ls ≡ some a → a.lease.resource_id ≡ k
  pub leases_registered :
      (k : String) (a : ActiveLease) → get k ls ≡ some a → contains_key k rs ≡ true
  pub ids_issued : (k : String) (a : ActiveLease) → get k ls ≡ some a → a.lease.id ≤ n
  pub ids_distinct :
      (j k : String) (a b : ActiveLease)
      → get j ls ≡ some a
      → get k ls ≡ some b
      → a.lease.id ≡ b.lease.id
      → j ≡ k

abbrev pub IsValid : {W : Type 0} → Fabric W → Type 0
IsValid f = Valid f.resources f.leases f.next_lease_id

-- A map of leases each of which the old one had under the same key.
pub record Sub (ls ms : Dict ActiveLease) : Type 0 where
  pub from : (k : String) (a : ActiveLease) → get k ls ≡ some a → get k ms ≡ some a

pub Valid-Sub :
    {rs : Dict Resource} {ls ms : Dict ActiveLease} {n : ℕ}
    → Sub ls ms
    → Valid rs ms n
    → Valid rs ls n
Valid-Sub s v = record {
  resources_keyed = v.resources_keyed;
  leases_keyed = λ k a e. v.leases_keyed k a (s.from k a e);
  leases_registered = λ k a e. v.leases_registered k a (s.from k a e);
  ids_issued = λ k a e. v.ids_issued k a (s.from k a e);
  ids_distinct = λ j k a b e d. v.ids_distinct j k a b (s.from j a e) (s.from k b d);
}

pub Sub-retain : (p : ActiveLease → Bool) (ls : Dict ActiveLease) → Sub (retain p ls) ls
Sub-retain p ls = record { from = λ k a e. ground (arith, get-retain p k ls) }

pub Sub-remove : (j : String) (ls : Dict ActiveLease) → Sub (remove j ls) ls
Sub-remove j ls = record { from = λ k a e. ground (arith, get-remove j k ls) }

contains_key-insert :
    (j k : String) (r : Resource) (rs : Dict Resource)
    → contains_key k rs ≡ true
    → contains_key k (insert j r rs) ≡ true
unfolding contains_key
contains_key-insert j k r rs h = ground (arith, get-insert j k r rs)

contains_key-remove :
    (j k : String) (rs : Dict Resource)
    → contains_key k rs ≡ true
    → str_eq j k ≡ false
    → contains_key k (remove j rs) ≡ true
unfolding contains_key
contains_key-remove j k rs h ne = ground (arith, get-remove j k rs)

pub Valid-register :
    {rs : Dict Resource} {ls : Dict ActiveLease} {n : ℕ} (r : Resource)
    → Valid rs ls n
    → Valid (insert r.id r rs) ls n
Valid-register {rs} r v = record {
  resources_keyed =
      λ k x e. ground (arith, get-insert r.id k r rs, eq_iff r.id k, v.resources_keyed k x);
  leases_keyed = v.leases_keyed;
  leases_registered = λ k a e. contains_key-insert r.id k r rs (v.leases_registered k a e);
  ids_issued = v.ids_issued;
  ids_distinct = v.ids_distinct;
}

-- Only a resource with no entry among the leases may go.
pub Valid-unregister :
    {rs : Dict Resource} {ls : Dict ActiveLease} {n : ℕ} (j : String)
    → get j ls ≡ none
    → Valid rs ls n
    → Valid (remove j rs) ls n
Valid-unregister {rs} j free v = record {
  resources_keyed = λ k x e. ground (arith, get-remove j k rs, v.resources_keyed k x);
  leases_keyed = v.leases_keyed;
  leases_registered = λ k a e. elim (Bool-cases (str_eq j k)) [
    | inl h ↦ absurd (ground (arith, eq_iff j k))
    | inr h ↦ contains_key-remove j k rs (v.leases_registered k a e) h
  ];
  ids_issued = v.ids_issued;
  ids_distinct = v.ids_distinct;
}

pub Valid-grant :
    {rs : Dict Resource} {ls : Dict ActiveLease} {n : ℕ} (a : ActiveLease)
    → Valid rs ls n
    → contains_key a.lease.resource_id rs ≡ true
    → a.lease.id ≡ n + 1
    → Valid rs (insert a.lease.resource_id a ls) a.lease.id
Valid-grant {ls = ls} a v known fresh = record {
  resources_keyed = v.resources_keyed;
  leases_keyed = λ k b e. ground (arith, get-insert i k a ls, eq_iff i k, v.leases_keyed k b);
  leases_registered =
      λ k b e. ground (arith, get-insert i k a ls, eq_iff i k, v.leases_registered k b);
  ids_issued = λ k b e. ground (arith, get-insert i k a ls, v.ids_issued k b);
  ids_distinct = λ j k b c e d same. ground (
    arith,
    get-insert i j a ls,
    get-insert i k a ls,
    eq_iff i j,
    eq_iff i k,
    v.ids_issued j b,
    v.ids_issued k c,
    v.ids_distinct j k b c,
  );
}
  where
    i : String
    i = a.lease.resource_id

-- A renewed entry keeps its lease.
pub Valid-extend :
    {rs : Dict Resource} {ls : Dict ActiveLease} {n : ℕ} (i : String) (a : ActiveLease) (t : ℕ)
    → get i ls ≡ some a
    → Valid rs ls n
    → Valid rs (insert i (record a { expires_at = t }) ls) n
Valid-extend {ls = ls} i a t old v = record {
  resources_keyed = v.resources_keyed;
  leases_keyed = λ k b e.
      ground (arith, get-insert i k a' ls, eq_iff i k, v.leases_keyed i a, v.leases_keyed k b);
  leases_registered = λ k b e.
      ground
        (arith, get-insert i k a' ls, eq_iff i k, v.leases_registered i a, v.leases_registered k b);
  ids_issued = λ k b e. ground (arith, get-insert i k a' ls, v.ids_issued i a, v.ids_issued k b);
  ids_distinct = λ j k b c e d same. ground (
    arith,
    get-insert i j a' ls,
    get-insert i k a' ls,
    eq_iff i j,
    eq_iff i k,
    v.ids_distinct j k b c,
    v.ids_distinct i k a c,
    v.ids_distinct j i b a,
  );
}
  where
    a' : ActiveLease
    a' = record a { expires_at = t }
