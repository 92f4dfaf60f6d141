-- ===== src/Dict.antt =====
-- `HashMap<String, V>` and `BTreeMap<String, V>` of the standard library, as an association list.
-- The first entry of a key is the one that counts. `remove` drops every entry of its key, and so
-- does `retain` when it drops one, so that the laws below need no hypothesis on the list.
use nauti_virtualizer.Prelude.{
  String, ◌≡◌, refl, Bool, true, false, Option, none, some, List, [], ◌∷◌, arith, eq_iff, str_eq,
  if◌then◌else◌,
}

abbrev pub Dict {ℓ} : Type ℓ → Type ℓ
Dict V = List (String × V)

module _ {ℓ} {V : Type ℓ} where
  unfoldable pub get : String → Dict V → Option V
  get k [] = none
  get k ((j, v) ∷ m) = if str_eq j k then some v else get k m

  abbrev is_some : Option V → Bool
  is_some none = false
  is_some (some v) = true

  unfoldable pub contains_key : String → Dict V → Bool
  unfolding get
  contains_key k m = is_some (get k m)

  unfoldable pub insert : String → V → Dict V → Dict V
  insert k v [] = (k, v) ∷ []
  insert k v ((j, w) ∷ m) = if str_eq j k then (j, v) ∷ m else (j, w) ∷ insert k v m

  unfoldable pub remove : String → Dict V → Dict V
  remove k [] = []
  remove k ((j, v) ∷ m) = let rest = remove k m in if str_eq j k then rest else (j, v) ∷ rest

  unfoldable pub retain : (V → Bool) → Dict V → Dict V
  unfolding remove
  retain p [] = []
  retain p ((j, v) ∷ m) = let rest = retain p m in if p v then (j, v) ∷ rest else remove j rest

  unfoldable pub keys : Dict V → List String
  keys [] = []
  keys ((j, v) ∷ m) = j ∷ keys m

  unfoldable pub values : Dict V → List V
  values [] = []
  values ((j, v) ∷ m) = v ∷ values m

  pub get-insert :
      (k j : String) (v : V) (m : Dict V)
      → get j (insert k v m) ≡ (if str_eq k j then some v else get j m)
  unfolding get insert
  get-insert k j v [] = refl
  get-insert k j v ((i, w) ∷ m) =
      ground (arith, eq_iff k j, eq_iff i k, eq_iff i j, get-insert k j v m)

  pub get-remove :
      (k j : String) (m : Dict V) → get j (remove k m) ≡ (if str_eq k j then none else get j m)
  unfolding get remove
  get-remove k j [] = ground arith
  get-remove k j ((i, w) ∷ m) = ground (arith, get-remove k j m, eq_iff i k, eq_iff i j, eq_iff k j)

  -- What `retain` leaves of one lookup.
  abbrev pub kept : (V → Bool) → Option V → Option V
  kept p none = none
  kept p (some v) = if p v then some v else none

  pub get-retain : (p : V → Bool) (k : String) (m : Dict V) → get k (retain p m) ≡ kept p (get k m)
  unfolding get retain
  get-retain p k [] = refl
  get-retain p k ((i, w) ∷ m) =
      ground (arith, get-retain p k m, get-remove i k (retain p m), eq_iff i k)

  pub contains_key-some :
      {v : V} (k : String) (m : Dict V) → get k m ≡ some v → contains_key k m ≡ true
  unfolding contains_key
  contains_key-some k m e = rw e

  pub contains_key-none : (k : String) (m : Dict V) → get k m ≡ none → contains_key k m ≡ false
  unfolding contains_key
  contains_key-none k m e = rw e

pub ruleset dict_laws = (get-insert, get-remove, get-retain)
