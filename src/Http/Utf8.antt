-- ===== src/Http/Utf8.antt =====
-- `str::from_utf8`, `String::from_utf8_lossy` and `str::as_bytes` of the standard library, as
-- nauti-fabric/src/plan.rs uses them.
use Prim.Native.Char.{Char, char, code, IsScalar}
use Prim.Native.String.{String}
use text.Mathlib.TextEquality.{IsScalar-prop}
use nauti_virtualizer.Prelude.{
  ap, ◌⊎◌, arith, ℕ, suc, zero, ◌+◌, ◌*◌, ◌/◌, ◌%◌, Bool, true, false, refl, ◌&&◌, ◌==◌, ltb, leb,
  List, [], ◌∷◌, ◌++◌, if◌then◌else◌, Option, none, some, ◌≡◌, arith, length,
}

pub IsScalar-low : (n : ℕ) → ltb n 0xd800 ≡ true → IsScalar n
IsScalar-low n h = ground arith

pub IsScalar-high : (n : ℕ) → ltb 0xdfff n && ltb n 0x110000 ≡ true → IsScalar n
IsScalar-high n h = ground arith

-- U+FFFD, which stands for bytes that are not UTF-8
abbrev pub replacement : Char
replacement = char 0xfffd tt

abbrev high_char : (n : ℕ) (b : Bool) → (ltb 0xdfff n && ltb n 0x110000 ≡ b) → Char
high_char n true e = char n (IsScalar-high n e)
high_char n false e = replacement

abbrev low_char : (n : ℕ) (b : Bool) → (ltb n 0xd800 ≡ b) → Char
low_char n true e = char n (IsScalar-low n e)
low_char n false e = high_char n (ltb 0xdfff n && ltb n 0x110000) refl

-- `char::from_u32`, with the replacement character for what is not a scalar value
unfoldable pub from_u32 : ℕ → Char
from_u32 n = low_char n (ltb n 0xd800) refl

pub scalar_range :
    (n : ℕ) → IsScalar n → (ltb n 0xd800 ≡ true) ⊎ ((ltb 0xdfff n ≡ true) × (ltb n 0x110000 ≡ true))
scalar_range n p = ground arith

high_char-char :
    (n : ℕ) (p : IsScalar n) (b : Bool) (e : ltb 0xdfff n && ltb n 0x110000 ≡ b)
    → ltb n 0xd800 ≡ false
    → high_char n b e ≡ char n p
high_char-char n p true e h = ap (char n) (IsScalar-prop n (IsScalar-high n e) p)
high_char-char n p false e h = absurd (ground (arith, scalar_range n p))

low_char-char :
    (n : ℕ) (p : IsScalar n) (b : Bool) (e : ltb n 0xd800 ≡ b) → low_char n b e ≡ char n p
low_char-char n p true e = ap (char n) (IsScalar-prop n (IsScalar-low n e) p)
low_char-char n p false e = high_char-char n p (ltb 0xdfff n && ltb n 0x110000) refl e

pub from_u32-code : (c : Char) → from_u32 (code c) ≡ c
unfolding from_u32
from_u32-code (char n p) = low_char-char n p (ltb n 0xd800) refl

unfoldable pub is_continuation : ℕ → Bool
is_continuation b = leb 0x80 b && leb b 0xbf

-- The last byte of a character, after the value of those before it.
unfoldable pub last_byte : ℕ → List ℕ → Option ℕ × List ℕ
unfolding is_continuation
last_byte v [] = (none, [])
last_byte v (b ∷ s) = if is_continuation b then (some (v * 64 + b % 64), s) else (none, b ∷ s)

unfoldable pub third_byte : ℕ → List ℕ → Option ℕ × List ℕ
unfolding is_continuation
third_byte v [] = (none, [])
third_byte v (b ∷ s) = if is_continuation b then last_byte (v * 64 + b % 64) s else (none, b ∷ s)

-- The second bytes that neither encode a surrogate nor a shorter form.
unfoldable pub second_of_three : ℕ → ℕ → Bool
unfolding is_continuation
second_of_three a b =
    if a == 0xe0
    then leb 0xa0 b && leb b 0xbf
    else if a == 0xed
    then leb 0x80 b && leb b 0x9f
    else is_continuation b

unfoldable pub second_of_four : ℕ → ℕ → Bool
unfolding is_continuation
second_of_four a b =
    if a == 0xf0
    then leb 0x90 b && leb b 0xbf
    else if a == 0xf4
    then leb 0x80 b && leb b 0x8f
    else is_continuation b

unfoldable pub after_three : ℕ → List ℕ → Option ℕ × List ℕ
after_three a [] = (none, [])
after_three a (b ∷ s) =
    if second_of_three a b then last_byte (a % 16 * 64 + b % 64) s else (none, b ∷ s)

unfoldable pub after_four : ℕ → List ℕ → Option ℕ × List ℕ
after_four a [] = (none, [])
after_four a (b ∷ s) =
    if second_of_four a b then third_byte (a % 8 * 64 + b % 64) s else (none, b ∷ s)

-- One character, or one ill-formed piece, and the bytes after it.
unfoldable pub next_char : ℕ → List ℕ → Option ℕ × List ℕ
next_char a s =
    if ltb a 0x80
    then (some a, s)
    else if leb 0xc2 a && leb a 0xdf
    then last_byte (a % 32) s
    else if leb 0xe0 a && leb a 0xef
    then after_three a s
    else if leb 0xf0 a && leb a 0xf4
    then after_four a s
    else (none, s)

-- The characters and the ill-formed pieces; the fuel is a bound on their number.
unfoldable pub pieces : ℕ → List ℕ → List (Option ℕ)
pieces zero s = []
pieces (suc n) [] = []
pieces (suc n) (a ∷ s) = (next_char a s).0 ∷ pieces n (next_char a s).1

unfoldable pub lossy : List (Option ℕ) → String
lossy [] = ""
lossy (none ∷ ps) = String.◌∷◌ replacement (lossy ps)
lossy (some c ∷ ps) = String.◌∷◌ (from_u32 c) (lossy ps)

unfoldable pub strict : List (Option ℕ) → Option String
strict [] = some ""
strict (none ∷ ps) = none
strict (some c ∷ ps) = elim (strict ps) [ none ↦ none | some s ↦ some (String.◌∷◌ (from_u32 c) s) ]

unfoldable pub from_utf8_lossy : List ℕ → String
from_utf8_lossy bytes = lossy (pieces (length bytes) bytes)

unfoldable pub from_utf8 : List ℕ → Option String
from_utf8 bytes = strict (pieces (length bytes) bytes)

unfoldable pub encode_utf8 : ℕ → List ℕ
encode_utf8 c =
    if ltb c 0x80
    then c ∷ []
    else if ltb c 0x800
    then (0xc0 + c / 64) ∷ (0x80 + c % 64) ∷ []
    else if ltb c 0x10000
    then (0xe0 + c / 4096) ∷ (0x80 + c / 64 % 64) ∷ (0x80 + c % 64) ∷ []
    else (0xf0 + c / 262144) ∷ (0x80 + c / 4096 % 64) ∷ (0x80 + c / 64 % 64) ∷ (0x80 + c % 64) ∷ []

-- `text.as_bytes()`
unfoldable pub as_bytes : String → List ℕ
as_bytes String.[] = []
as_bytes (String.◌∷◌ c s) = encode_utf8 (code c) ++ as_bytes s
