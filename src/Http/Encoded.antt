-- ===== src/Http/Encoded.antt =====
-- UTF-8 as nauti-fabric/src/plan.rs relies on it: what is written as bytes is read back as text.
use Prim.Native.Char.{Char, char, code, IsScalar}
use Prim.Native.String.{String}
use nauti_virtualizer.Prelude.{
  ℕ, ◌+◌, ◌/◌, ◌%◌, ◌<◌, true, false, ltb, List, [], ◌∷◌, ◌++◌, Option, some, ◌≡◌, refl, ap, length,
  arith, inl, inr, Bool-cases, ◌∙◌, ◌⊎◌,
}
use nauti_virtualizer.Http.Utf8.{
  next_char, pieces, strict, lossy, from_utf8, from_utf8_lossy, encode_utf8, as_bytes, scalar_range,
  from_u32-code,
}
use nauti_virtualizer.Http.Reading.{
  read_one, read_two, read_three, read_four, length-next_char, pieces_enough,
}

-- What the bytes hold, with as much fuel as they need.
chars : List ℕ → List (Option ℕ)
chars s = pieces (length s) s

chars_step :
    (a : ℕ) (s : List ℕ) (n : ℕ) (rest : List ℕ)
    → next_char a s ≡ (some n, rest)
    → chars (a ∷ s) ≡ some n ∷ chars rest
unfolding chars pieces
chars_step a s n rest e =
    let shorter = length-next_char a s in
    let left = ap (λ r. length (r.1)) e in
    ap (λ r. (r.0) ∷ pieces (length s) (r.1)) e
    ∙ ap (λ ps. some n ∷ ps)
        (pieces_enough (length s) (length rest) rest (omega (arith, shorter, left)) (omega arith))

encode_one : (n : ℕ) → ltb n 0x80 ≡ true → encode_utf8 n ≡ n ∷ []
unfolding encode_utf8
encode_one n h = rw h

encode_two :
    (n : ℕ)
    → ltb n 0x80 ≡ false
    → ltb n 0x800 ≡ true
    → encode_utf8 n ≡ (0xc0 + n / 64) ∷ (0x80 + n % 64) ∷ []
unfolding encode_utf8
encode_two n h h' = simp (h, h')

encode_three :
    (n : ℕ)
    → ltb n 0x80 ≡ false
    → ltb n 0x800 ≡ false
    → ltb n 0x10000 ≡ true
    → encode_utf8 n ≡ (0xe0 + n / 4096) ∷ (0x80 + n / 64 % 64) ∷ (0x80 + n % 64) ∷ []
unfolding encode_utf8
encode_three n h h' h'' = simp (h, h', h'')

encode_four :
    (n : ℕ)
    → ltb n 0x80 ≡ false
    → ltb n 0x800 ≡ false
    → ltb n 0x10000 ≡ false
    → encode_utf8 n
      ≡ (0xf0 + n / 262144) ∷ (0x80 + n / 4096 % 64) ∷ (0x80 + n / 64 % 64) ∷ (0x80 + n % 64) ∷ []
unfolding encode_utf8
encode_four n h h' h'' = simp (h, h', h'')

low_or_high : (n : ℕ) → IsScalar n → (ltb n 0xd800 ≡ true) ⊎ (ltb 0xdfff n ≡ true)
low_or_high n p = ground (arith, scalar_range n p)

below_end : (n : ℕ) → IsScalar n → n < 0x110000
below_end n p = ground (arith, scalar_range n p)

chars-encode_utf8 :
    (n : ℕ) (rest : List ℕ) → IsScalar n → chars (encode_utf8 n ++ rest) ≡ some n ∷ chars rest
chars-encode_utf8 n rest p = elim (Bool-cases (ltb n 0x80)) [
  | inl h ↦ rw (encode_one n h) (chars_step n rest n rest (read_one n rest (ground arith)))
  | inr h ↦ elim (Bool-cases (ltb n 0x800)) [
    | inl h' ↦ rw (encode_two n h h') (
        chars_step (0xc0 + n / 64) ((0x80 + n % 64) ∷ rest) n rest
          (read_two n rest (ground arith) (ground arith)))
    | inr h' ↦ elim (Bool-cases (ltb n 0x10000)) [
      | inl h'' ↦ rw (encode_three n h h' h'') (
          chars_step (0xe0 + n / 4096) ((0x80 + n / 64 % 64) ∷ (0x80 + n % 64) ∷ rest) n rest
            (read_three n rest (ground arith) (ground arith) (low_or_high n p)))
      | inr h'' ↦ rw (encode_four n h h' h'') (
          chars_step (0xf0 + n / 262144)
            ((0x80 + n / 4096 % 64) ∷ (0x80 + n / 64 % 64) ∷ (0x80 + n % 64) ∷ rest) n rest
            (read_four n rest (ground arith) (below_end n p)))
    ]
  ]
]

IsScalar-code : (c : Char) → IsScalar (code c)
IsScalar-code (char n p) = p

chars-as_bytes :
    (c : Char) (s : String) → chars (as_bytes (String.◌∷◌ c s)) ≡ some (code c) ∷ chars (as_bytes s)
unfolding as_bytes
chars-as_bytes c s = chars-encode_utf8 (code c) (as_bytes s) (IsScalar-code c)

strict-some :
    (c : Char) (ps : List (Option ℕ)) (s : String)
    → strict ps ≡ some s
    → strict (some (code c) ∷ ps) ≡ some (String.◌∷◌ c s)
unfolding strict
strict-some c ps s e = simp (e, from_u32-code c)

lossy-some :
    (c : Char) (ps : List (Option ℕ)) (s : String)
    → lossy ps ≡ s
    → lossy (some (code c) ∷ ps) ≡ String.◌∷◌ c s
unfolding lossy
lossy-some c ps s e = simp (e, from_u32-code c)

strict-chars : (s : String) → strict (chars (as_bytes s)) ≡ some s
unfolding strict as_bytes chars pieces
strict-chars String.[] = refl
strict-chars (String.◌∷◌ c s) =
    ap strict (chars-as_bytes c s) ∙ strict-some c (chars (as_bytes s)) s (strict-chars s)

lossy-chars : (s : String) → lossy (chars (as_bytes s)) ≡ s
unfolding lossy as_bytes chars pieces
lossy-chars String.[] = refl
lossy-chars (String.◌∷◌ c s) =
    ap lossy (chars-as_bytes c s) ∙ lossy-some c (chars (as_bytes s)) s (lossy-chars s)

-- The bytes of a text are well-formed UTF-8, and are read back as that text.
pub from_utf8-as_bytes : (s : String) → from_utf8 (as_bytes s) ≡ some s
unfolding from_utf8 chars
from_utf8-as_bytes s = strict-chars s

-- The lossy reading loses nothing of the bytes of a text.
pub from_utf8_lossy-as_bytes : (s : String) → from_utf8_lossy (as_bytes s) ≡ s
unfolding from_utf8_lossy chars
from_utf8_lossy-as_bytes s = lossy-chars s
