-- ===== src/Http/Text.antt =====
-- The functions of `str` that nauti-fabric/src/plan.rs calls on the head's URL and on its answer.
use Prim.Native.Char.{Char, code}
use Prim.Native.String.{[], ◌∷◌}
use text.Mathlib.Text.{starts_with}
use nauti_virtualizer.Prelude.{
  ℕ, String, ◌+◌, ◌*◌, ◌-◌, Bool, true, false, not, ◌&&◌, ◌||◌, ◌==◌, leb, ltb, List, Option, none,
  some, keep, if◌then◌else◌,
}
use nauti_virtualizer.Plan.Text.{is_whitespace}
use nauti_virtualizer.Vmm.Pieces.{only, before, grow}
use nauti_virtualizer.Vmm.Texts.{is_empty, trim_start, trim_end}
use nauti_virtualizer.Http.Utf8.{from_u32}

-- `s.trim()`
unfoldable pub trim : String → String
unfolding trim_start trim_end
trim s = trim_end (trim_start s)

-- `s.split(p)`
unfoldable pub split : (ℕ → Bool) → String → List String
split p [] = only []
split p (c ∷ s) =
    let rest = split p s in if p (code c) then before [] rest else grow (λ t. c ∷ t) rest

-- `s.split(c).next().unwrap_or("")`
unfoldable pub up_to : ℕ → String → String
up_to d [] = []
up_to d (c ∷ s) = if code c == d then [] else c ∷ up_to d s

unfoldable pub behind : Char → Option (String × String) → Option (String × String)
behind c none = none
behind c (some (a, b)) = some (c ∷ a, b)

-- `s.split_once(c)`
unfoldable pub split_once : ℕ → String → Option (String × String)
unfolding behind
split_once d [] = none
split_once d (c ∷ s) =
    let rest = split_once d s in if code c == d then some ([], s) else behind c rest

-- The separator at hand counts if there is none behind it.
unfoldable pub or_here : Bool → String → Option (String × String) → Option (String × String)
or_here true s none = some ([], s)
or_here false s none = none
or_here b s (some found) = some found

-- `s.rsplit_once(c)`
unfoldable pub rsplit_once : ℕ → String → Option (String × String)
unfolding behind or_here
rsplit_once d [] = none
rsplit_once d (c ∷ s) = or_here (code c == d) s (behind c (rsplit_once d s))

-- `s.strip_prefix(p)`
unfoldable pub strip_prefix : String → String → Option String
strip_prefix [] s = some s
strip_prefix (d ∷ p) [] = none
strip_prefix (d ∷ p) (c ∷ s) = if code c == code d then strip_prefix p s else none

-- `s.contains(t)`
unfoldable pub contains_text : String → String → Bool
unfolding is_empty
contains_text [] t = is_empty t
contains_text (c ∷ s) t = starts_with (c ∷ s) t || contains_text s t

unfoldable pub lower : ℕ → ℕ
lower c = if leb 65 c && leb c 90 then c + 32 else c

-- `s.to_ascii_lowercase()`
unfoldable pub to_ascii_lowercase : String → String
unfolding lower from_u32
to_ascii_lowercase [] = []
to_ascii_lowercase (c ∷ s) = from_u32 (lower (code c)) ∷ to_ascii_lowercase s

-- `s.split_whitespace()`
unfoldable pub split_whitespace : String → List String
unfolding split is_empty is_whitespace
split_whitespace s = keep (λ w. not (is_empty w)) (split is_whitespace s)

-- The `\r` before a `\n`.
unfoldable pub strip_cr : String → String
unfolding is_empty
strip_cr [] = []
strip_cr (c ∷ s) = let rest = strip_cr s in if code c == 13 && is_empty s then [] else c ∷ rest

-- A digit of `char::to_digit`, or the radix itself
unfoldable pub digit : ℕ → ℕ
digit c =
    if leb 48 c && leb c 57
    then c - 48
    else if leb 97 c && leb c 122
    then c - 87
    else if leb 65 c && leb c 90
    then c - 55
    else 36

-- The value of the digits after `v`, if it stays below the bound.
unfoldable pub digits : ℕ → ℕ → ℕ → String → Option ℕ
unfolding digit
digits radix bound v [] = some v
digits radix bound v (c ∷ s) =
    let next = v * radix + digit (code c) in
    let rest = digits radix bound next s in
    if ltb (digit (code c)) radix && ltb next bound then rest else none

-- `uN::from_str_radix(s, radix)`: one `+` may stand before the digits, of which there is one at least.
unfoldable pub unsigned : ℕ → ℕ → String → Option ℕ
unfolding digits is_empty
unsigned radix bound [] = none
unsigned radix bound (c ∷ s) =
    if code c == 43
    then (if is_empty s then none else digits radix bound 0 s)
    else digits radix bound 0 (c ∷ s)

-- `s.trim_matches(|c| c == '[' || c == ']')` is empty
unfoldable pub only_brackets : String → Bool
only_brackets [] = true
only_brackets (c ∷ s) = (code c == 91 || code c == 93) && only_brackets s
