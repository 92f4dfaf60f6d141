-- ===== src/SortedSet.antt =====
-- `BTreeSet<String>` of the standard library, as a list in ascending order of the texts, and the
-- stable `sort_by` on a text that the listings use.
use Prim.Native.Nat.{Ordering}
use Prim.Native.String.{compare}
use text.Mathlib.TextEquality.{path_by_compare}
use nauti_virtualizer.Prelude.{
  ap, ◌&&◌, ◌||◌, String, Bool, not, List, [], ◌∷◌, ◌≡◌, refl, contains, keep, eq_iff, arith,
  str_eq,
}

insert_at : Ordering → String → String → List String → List String → List String
insert_at Ordering.lt k x xs rest = k ∷ x ∷ xs
insert_at Ordering.eq k x xs rest = x ∷ xs
insert_at Ordering.gt k x xs rest = x ∷ rest

unfoldable pub insert : String → List String → List String
unfolding insert_at
insert k [] = k ∷ []
insert k (x ∷ xs) = insert_at (compare k x) k x xs (insert k xs)

-- `iter.collect::<BTreeSet<String>>()`
unfoldable pub collect : List String → List String
unfolding insert
collect [] = []
collect (k ∷ ks) = insert k (collect ks)

-- `a.difference(&b)`
unfoldable pub difference : List String → List String → List String
difference a b = keep (λ k. not (contains b k)) a

place_at {ℓ} : {A : Type ℓ} → Ordering → A → A → List A → List A → List A
place_at Ordering.gt a x xs rest = x ∷ rest
place_at _ a x xs rest = a ∷ x ∷ xs

place {ℓ} : {A : Type ℓ} → (A → String) → A → List A → List A
unfolding place_at
place key a [] = a ∷ []
place key a (x ∷ xs) = place_at (compare (key a) (key x)) a x xs (place key a xs)

-- `items.sort_by(|left, right| left.key.cmp(&right.key))`
unfoldable pub sort_by {ℓ} : {A : Type ℓ} → (A → String) → List A → List A
unfolding place
sort_by key [] = []
sort_by key (a ∷ rest) = place key a (sort_by key rest)

contains-insert_at :
    (o : Ordering) (k x j : String) (xs rest : List String)
    → compare k x ≡ o
    → contains rest j ≡ (str_eq k j || contains xs j)
    → contains (insert_at o k x xs rest) j ≡ (str_eq k j || contains (x ∷ xs) j)
unfolding insert_at
contains-insert_at Ordering.lt k x j xs rest e h = refl
contains-insert_at Ordering.eq k x j xs rest e h =
    ground (arith, ap (λ s. str_eq s j) (path_by_compare k x e))
contains-insert_at Ordering.gt k x j xs rest e h = ground arith

-- What is in a set, by the test.
pub contains-insert :
    (k j : String) (xs : List String) → contains (insert k xs) j ≡ (str_eq k j || contains xs j)
unfolding insert
contains-insert k j [] = refl
contains-insert k j (x ∷ xs) =
    contains-insert_at (compare k x) k x j xs (insert k xs) refl (contains-insert k j xs)

pub contains-collect : (ks : List String) (j : String) → contains (collect ks) j ≡ contains ks j
unfolding collect
contains-collect [] j = refl
contains-collect (k ∷ ks) j =
    ground (arith, contains-insert k j (collect ks), contains-collect ks j)

contains-keep :
    (p : String → Bool) (j : String) (xs : List String)
    → contains (keep p xs) j ≡ (p j && contains xs j)
contains-keep p j [] = ground arith
contains-keep p j (x ∷ xs) = ground (arith, contains-keep p j xs, eq_iff x j, ap p {x = x} {y = j})

pub contains-difference :
    (a b : List String) (j : String)
    → contains (difference a b) j ≡ (contains a j && not (contains b j))
unfolding difference
contains-difference a b j = ground (arith, contains-keep (λ k. not (contains b k)) j a)
