-- ===== src/Http/Slices.antt =====
-- Slices of bytes in nauti-fabric/src/plan.rs: where `find_subslice` finds its needle.
use nauti_virtualizer.Prelude.{
  ℕ, zero, suc, ◌+◌, ◌≤◌, ◌<◌, true, false, ◌==◌, List, [], ◌∷◌, ◌++◌, some, ◌≡◌, ◌↔◌, refl, ap,
  length, arith, inl, inr, ◌⊎◌,
}
use nauti_virtualizer.Http.Bytes.{take, drop, at_front, one_on, find_subslice, crlf}

pub take-append : (a b : List ℕ) → take (length a) (a ++ b) ≡ a
take-append [] [] = refl
take-append [] (x ∷ b) = refl
take-append (x ∷ a) b = ap (λ t. x ∷ t) (take-append a b)

pub drop-append : (m k : ℕ) (a b : List ℕ) → m ≡ length a + k → drop m (a ++ b) ≡ drop k b
drop-append m k [] b e = let same : m ≡ k = omega arith in ap (λ i. drop i b) same
drop-append zero k (x ∷ a) b e = absurd (omega arith)
drop-append (suc m) k (x ∷ a) b e = drop-append m k a b (omega arith)

pub length-drop :
    (n : ℕ) (bs : List ℕ) → length (drop n bs) + n ≤ length bs ⊎ (length (drop n bs) ≡ 0)
length-drop zero bs = inl (omega arith)
length-drop (suc n) [] = inr refl
length-drop (suc n) (b ∷ bs) = ground (arith, length-drop n bs)

-- No carriage return among the bytes.
unfoldable pub NoCr : List ℕ → Type 0
NoCr [] = Unit
NoCr (b ∷ bs) = (b == 13 ≡ false) × NoCr bs

pub find_subslice_line :
    (line rest : List ℕ)
    → NoCr line
    → find_subslice (line ++ 13 ∷ 10 ∷ rest) crlf ≡ some (length line)
unfolding NoCr find_subslice at_front one_on
find_subslice_line [] rest h = refl
find_subslice_line (b ∷ line) rest h = ground (arith, find_subslice_line line rest)

-- The needle stands in the bytes at the offset.
unfoldable pub At : List ℕ → List ℕ → ℕ → Type 0
At h needle i = at_front needle (drop i h) ≡ true

module _ (x : ℕ) (needle : List ℕ) where
  At-nil : (i : ℕ) → At [] (x ∷ needle) i → ⊥
  unfolding At at_front
  At-nil zero h = ground arith
  At-nil (suc i) h = ground arith

  found : (h : List ℕ) (i : ℕ) → find_subslice h (x ∷ needle) ≡ some i → At h (x ∷ needle) i
  unfolding find_subslice one_on At
  found [] i e = ground arith
  found (b ∷ bs) zero e = ground arith
  found (b ∷ bs) (suc i) e = ground (arith, found bs i)

  first :
      (h : List ℕ) (i j : ℕ)
      → find_subslice h (x ∷ needle) ≡ some i
      → j < i
      → At h (x ∷ needle) j
      → ⊥
  unfolding find_subslice one_on At
  first [] i j e lt at = ground arith
  first (b ∷ bs) zero j e lt at = absurd (omega arith)
  first (b ∷ bs) (suc i) zero e lt at = ground arith
  first (b ∷ bs) (suc i) (suc j) e lt at = ground (arith, first bs i j)

  least :
      (h : List ℕ) (i : ℕ)
      → At h (x ∷ needle) i
      → ((j : ℕ) → j < i → At h (x ∷ needle) j → ⊥)
      → find_subslice h (x ∷ needle) ≡ some i
  unfolding find_subslice one_on At
  least [] i at none_before = absurd (At-nil i at)
  least (b ∷ bs) zero at none_before = ground arith
  least (b ∷ bs) (suc i) at none_before =
      ground (arith, least bs i at (λ j lt. none_before (suc j) (omega arith)), none_before 0)

  -- `find_subslice` of a needle that is not empty answers an offset exactly when the needle stands
  -- there and at no smaller offset.
  pub find_subslice_iff :
      (h : List ℕ) (i : ℕ)
      → (find_subslice h (x ∷ needle) ≡ some i)
        ↔ (At h (x ∷ needle) i × ((j : ℕ) → j < i → At h (x ∷ needle) j → ⊥))
  find_subslice_iff h i = (
    λ e. (found h i e, λ j lt at. first h i j e lt at),
    λ (at, none_before). least h i at none_before,
  )
