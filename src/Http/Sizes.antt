-- ===== src/Http/Sizes.antt =====
-- The size line of a chunk, as RFC 9112 writes it and as `dechunk` of nauti-fabric/src/plan.rs reads
-- it.
use Prim.Native.Char.{char, code}
use Prim.Native.String.{String}
use nauti_virtualizer.Prelude.{
  ℕ, ◌+◌, ◌*◌, ◌<◌, ◌≤◌, ◌==◌, false, List, [], ◌∷◌, ◌++◌, some, ◌≡◌, refl, ap, ◌∙◌, arith,
}
use nauti_virtualizer.Plan.Text.{is_whitespace}
use nauti_virtualizer.Vmm.Texts.{trim_start, trim_end}
use nauti_virtualizer.Http.Utf8.{
  IsScalar-low, from_u32, from_u32-code, pieces, lossy, from_utf8_lossy,
}
use nauti_virtualizer.Http.Text.{trim, up_to, digit, digits, unsigned}
use nauti_virtualizer.Http.Bytes.{usize_bound, chunk_size}
use nauti_virtualizer.Http.Reading.{read_one}

-- The byte of a hexadecimal digit in either case, and its value.
pub data HexDigit : ℕ → ℕ → Type 0 where
  decimal : (d : ℕ) → d < 10 → HexDigit (48 + d) d
  capital_letter : (d : ℕ) → d < 6 → HexDigit (65 + d) (10 + d)
  small_letter : (d : ℕ) → d < 6 → HexDigit (97 + d) (10 + d)

-- The digits, read after the value `v`, make the last number.
pub data Hexadecimal : ℕ → List ℕ → ℕ → Type 0 where
  done : (v : ℕ) → Hexadecimal v [] v
  next :
      (v b d n : ℕ) (bs : List ℕ)
      → HexDigit b d
      → Hexadecimal (v * 16 + d) bs n
      → Hexadecimal v (b ∷ bs) n

-- The end of the line, or an extension behind a semicolon.
pub data IsExtension : List ℕ → Type 0 where
  absent : IsExtension []
  given : (bs : List ℕ) → IsExtension (59 ∷ bs)

-- A size line: one hexadecimal digit or more that make the number, and an extension if any.
pub record Announces (line : List ℕ) (n : ℕ) : Type 0 where
  pub first : ℕ
  pub later : List ℕ
  pub extension : List ℕ
  pub written : line ≡ (first ∷ later) ++ extension
  pub number : Hexadecimal 0 (first ∷ later) n
  pub is_extension : IsExtension extension

code-from_u32 : (b : ℕ) → b < 0x80 → code (from_u32 b) ≡ b
code-from_u32 b h = ap code (from_u32-code (char b (IsScalar-low b (ground arith))))

record IsDigit (b d : ℕ) : Type 0 where
  ascii : b < 0x80
  small : d < 16
  read : digit b ≡ d
  full : is_whitespace b ≡ false
  no_semicolon : b == 59 ≡ false
  no_plus : b == 43 ≡ false

HexDigit-IsDigit : (b d : ℕ) → HexDigit b d → IsDigit b d
unfolding digit is_whitespace
HexDigit-IsDigit b d (decimal d' h) = record {
  ascii = omega arith;
  small = omega arith;
  read = ground arith;
  full = ground arith;
  no_semicolon = ground arith;
  no_plus = ground arith;
}
HexDigit-IsDigit b d (capital_letter d' h) = record {
  ascii = omega arith;
  small = omega arith;
  read = ground arith;
  full = ground arith;
  no_semicolon = ground arith;
  no_plus = ground arith;
}
HexDigit-IsDigit b d (small_letter d' h) = record {
  ascii = omega arith;
  small = omega arith;
  read = ground arith;
  full = ground arith;
  no_semicolon = ground arith;
  no_plus = ground arith;
}

-- The text of digits.
text_of : List ℕ → String
text_of [] = String.[]
text_of (b ∷ bs) = String.◌∷◌ (from_u32 b) (text_of bs)

from_utf8_lossy_ascii :
    (b : ℕ) (s : List ℕ)
    → b < 0x80
    → from_utf8_lossy (b ∷ s) ≡ String.◌∷◌ (from_u32 b) (from_utf8_lossy s)
unfolding from_utf8_lossy pieces lossy
from_utf8_lossy_ascii b s h = rw (read_one b s h) refl

up_to_extension : (ext : List ℕ) → IsExtension ext → up_to 59 (from_utf8_lossy ext) ≡ String.[]
unfolding up_to from_utf8_lossy pieces lossy
up_to_extension ext absent = refl
up_to_extension ext (given bs) =
    rw (from_utf8_lossy_ascii 59 bs (omega arith)) (rw (code-from_u32 59 (omega arith)) refl)

up_to_digits :
    (v n : ℕ) (ds ext : List ℕ)
    → Hexadecimal v ds n
    → IsExtension ext
    → up_to 59 (from_utf8_lossy (ds ++ ext)) ≡ text_of ds
unfolding up_to text_of
up_to_digits v n ds ext (done v') e = up_to_extension ext e
up_to_digits v n ds ext (next v' b d n' bs h more) e =
    let facts = HexDigit-IsDigit b d h in
    rw (from_utf8_lossy_ascii b (bs ++ ext) facts.ascii) (
      rw (code-from_u32 b facts.ascii) (
        rw facts.no_semicolon
          (ap (λ t. String.◌∷◌ (from_u32 b) t) (up_to_digits (v' * 16 + d) n bs ext more e))))

trim_start-digit :
    (b : ℕ) (s : String)
    → b < 0x80
    → is_whitespace b ≡ false
    → trim_start (String.◌∷◌ (from_u32 b) s) ≡ String.◌∷◌ (from_u32 b) s
unfolding trim_start
trim_start-digit b s ascii full = rw (code-from_u32 b ascii) (rw full refl)

trim_end-text_of : (v n : ℕ) (ds : List ℕ) → Hexadecimal v ds n → trim_end (text_of ds) ≡ text_of ds
unfolding trim_end text_of
trim_end-text_of v n ds (done v') = refl
trim_end-text_of v n ds (next v' b d n' bs h more) =
    let facts = HexDigit-IsDigit b d h in
    rw (code-from_u32 b facts.ascii) (
      rw facts.full
        (ap (λ t. String.◌∷◌ (from_u32 b) t) (trim_end-text_of (v' * 16 + d) n bs more)))

Hexadecimal-grows : (v n : ℕ) (ds : List ℕ) → Hexadecimal v ds n → v ≤ n
Hexadecimal-grows v n ds (done v') = omega arith
Hexadecimal-grows v n ds (next v' b d n' bs h more) =
    omega (arith, Hexadecimal-grows (v' * 16 + d) n bs more)

digits-text_of :
    (v n : ℕ) (ds : List ℕ)
    → Hexadecimal v ds n
    → n < usize_bound
    → digits 16 usize_bound v (text_of ds) ≡ some n
unfolding digits text_of
digits-text_of v n ds (done v') fits = refl
digits-text_of v n ds (next v' b d n' bs h more) fits =
    let facts = HexDigit-IsDigit b d h in
    let same : digit (code (from_u32 b)) ≡ d =
      ap digit (code-from_u32 b facts.ascii) ∙ facts.read in
    rw same (
      ground (
        arith,
        facts.small,
        Hexadecimal-grows (v' * 16 + d) n bs more,
        digits-text_of (v' * 16 + d) n bs more fits,
      ))

first_digit : (v b n : ℕ) (bs : List ℕ) → Hexadecimal v (b ∷ bs) n → (d : ℕ) × HexDigit b d
first_digit v b n bs (next v' b' d n' bs' h more) = (d, h)

trim-text_of :
    (v b n : ℕ) (bs : List ℕ)
    → Hexadecimal v (b ∷ bs) n
    → trim (text_of (b ∷ bs)) ≡ text_of (b ∷ bs)
unfolding trim text_of
trim-text_of v b n bs h =
    let (d, is_digit) = first_digit v b n bs h in
    let facts = HexDigit-IsDigit b d is_digit in
    ap trim_end (trim_start-digit b (text_of bs) facts.ascii facts.full)
    ∙ trim_end-text_of v n (b ∷ bs) h

unsigned-text_of :
    (b n : ℕ) (bs : List ℕ)
    → Hexadecimal 0 (b ∷ bs) n
    → n < usize_bound
    → unsigned 16 usize_bound (text_of (b ∷ bs)) ≡ some n
unfolding unsigned text_of
unsigned-text_of b n bs h fits =
    let (d, is_digit) = first_digit 0 b n bs h in
    let facts = HexDigit-IsDigit b d is_digit in
    let signless : code (from_u32 b) == 43 ≡ false =
      ap (λ c. c == 43) (code-from_u32 b facts.ascii) ∙ facts.no_plus in
    rw signless (digits-text_of 0 n (b ∷ bs) h fits)

-- What a size line announces is what `dechunk` reads from it, if it is less than 2^64.
pub chunk_size-Announces :
    (line : List ℕ) (n : ℕ) → Announces line n → n < usize_bound → chunk_size line ≡ some n
unfolding chunk_size
chunk_size-Announces line n a fits =
    let ds = a.first ∷ a.later in
    let cut : up_to 59 (from_utf8_lossy line) ≡ text_of ds =
      ap (λ l. up_to 59 (from_utf8_lossy l)) a.written
      ∙ up_to_digits 0 n ds a.extension a.number a.is_extension in
    ap (λ t. unsigned 16 usize_bound (trim t)) cut
    ∙ ap (unsigned 16 usize_bound) (trim-text_of 0 a.first n a.later a.number)
    ∙ unsigned-text_of a.first n a.later a.number fits
