-- ===== src/Plan/Number.antt =====
-- `f64` and the text forms that the planners print. A value that is not NaN has a rank in the order
-- of the values, with one rank for both zeros; comparing with a NaN has no answer.
use Prim.Native.Nat.{compare, Ordering}
use nauti_virtualizer.Prelude.{
  ℕ, String, Bool, Option, none, some, ◌||◌, true, false, if◌then◌else◌, List, [], ◌∷◌,
}

pub record Float : Type 1 where
  pub F : Type 0
  pub is_nan : F → Bool
  pub rank : F → ℕ
  pub sub : F → F → F
  pub mul : F → F → F
  -- `LATENCY_MB_PER_MS`, 512.0
  pub latency_mb_per_ms : F
  -- `{}` and `{:.3}` of an `f64`, `{}` of a `usize`, `{:?}` of a text
  pub display : F → String
  pub display_ms : F → String
  pub decimal : ℕ → String
  pub quoted : String → String

module _ (n : Float) where
  unfoldable pub partial_cmp : n.F → n.F → Option Ordering
  partial_cmp a b = if n.is_nan a || n.is_nan b then none else some (compare (n.rank a) (n.rank b))

  -- `partial_cmp(…).unwrap_or(Ordering::Equal)`
  unfoldable pub order : n.F → n.F → Ordering
  unfolding partial_cmp
  order a b = elim (partial_cmp a b) [ none ↦ Ordering.eq | some o ↦ o ]

  -- `a > b`
  unfoldable pub gt : n.F → n.F → Bool
  unfolding partial_cmp
  gt a b = elim (partial_cmp a b) [
    | none ↦ false
    | some o ↦ elim o [ Ordering.gt ↦ true | _ ↦ false ]
  ]

  -- `fleet_score`
  unfoldable pub fleet_score : n.F → Option n.F → n.F
  fleet_score free_mb none = free_mb
  fleet_score free_mb (some ms) = n.sub free_mb (n.mul n.latency_mb_per_ms ms)

-- `Iterator::max_by`: of equal items the last one wins.
unfoldable pub pick {ℓ} : {A : Type ℓ} → Ordering → A → A → A
pick Ordering.gt best x = best
pick _ best x = x

unfoldable pub fold_max {ℓ} : {A : Type ℓ} → (A → A → Ordering) → A → List A → A
unfolding pick
fold_max cmp best [] = best
fold_max cmp best (x ∷ xs) = fold_max cmp (pick (cmp best x) best x) xs

unfoldable pub max_by {ℓ} : {A : Type ℓ} → (A → A → Ordering) → List A → Option A
unfolding fold_max
max_by cmp [] = none
max_by cmp (x ∷ xs) = some (fold_max cmp x xs)
