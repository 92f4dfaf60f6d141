-- ===== src/Http/Bytes.antt =====
-- `find_subslice`, `find_header_end` and the chunk decoder of nauti-fabric/src/plan.rs, over bytes.
use nauti_virtualizer.Prelude.{
  ℕ, String, suc, zero, ◌+◌, ◌^◌, Bool, true, false, ◌&&◌, ◌==◌, leb, ltb, min, List, [], ◌∷◌, ◌++◌,
  Option, none, some, if◌then◌else◌, length,
}
use nauti_virtualizer.Http.Utf8.{from_utf8_lossy}
use nauti_virtualizer.Http.Text.{trim, up_to, unsigned}

abbrev pub take : ℕ → List ℕ → List ℕ
take zero bs = []
take (suc n) [] = []
take (suc n) (b ∷ bs) = b ∷ take n bs

abbrev pub drop : ℕ → List ℕ → List ℕ
drop zero bs = bs
drop (suc n) [] = []
drop (suc n) (b ∷ bs) = drop n bs

-- The window at the front of the haystack is the needle.
unfoldable pub at_front : List ℕ → List ℕ → Bool
at_front [] h = true
at_front (n ∷ ns) [] = false
at_front (n ∷ ns) (b ∷ bs) = (b == n) && at_front ns bs

unfoldable pub one_on : Option ℕ → Option ℕ
one_on none = none
one_on (some i) = some (suc i)

-- `haystack.windows(needle.len()).position(|window| window == needle)`, of a needle that is not empty
unfoldable pub find_subslice : List ℕ → List ℕ → Option ℕ
unfolding at_front one_on
find_subslice [] needle = none
find_subslice (b ∷ bs) needle =
    let later = one_on (find_subslice bs needle) in
    if at_front needle (b ∷ bs) then some 0 else later

abbrev pub crlf : List ℕ
crlf = 13 ∷ 10 ∷ []

abbrev pub bare_end : List ℕ
bare_end = 10 ∷ 10 ∷ []

abbrev pub header_end : List ℕ
header_end = 13 ∷ 10 ∷ 13 ∷ 10 ∷ []

unfoldable pub bare_header_end : Option ℕ → Option ℕ
bare_header_end none = none
bare_header_end (some i) = some (i + 2)

unfoldable pub header_end_at : Option ℕ → Option ℕ → Option ℕ
unfolding bare_header_end
header_end_at (some i) bare = some (i + 4)
header_end_at none bare = bare_header_end bare

unfoldable pub find_header_end : List ℕ → Option ℕ
unfolding header_end_at find_subslice
find_header_end raw = header_end_at (find_subslice raw header_end) (find_subslice raw bare_end)

abbrev pub usize_bound : ℕ
usize_bound = 2 ^ 64

unfoldable pub unwrap_or : ℕ → Option ℕ → ℕ
unwrap_or d none = d
unwrap_or d (some n) = n

-- The size that a chunk's first line announces, without its extensions.
unfoldable pub chunk_size : List ℕ → Option ℕ
chunk_size line = unsigned 16 usize_bound (trim (up_to 59 (from_utf8_lossy line)))

-- The chunk of `len` bytes at `start`, and what follows it and its line end; or the end of the loop.
unfoldable pub chunk_at : ℕ → ℕ → List ℕ → Option (List ℕ × List ℕ)
chunk_at start len rest =
    if ltb (start + len) usize_bound && leb (start + len) (length rest)
    then some (
      take len (drop start rest),
      drop (min (min (start + len) (length rest) + 2) (length rest)) rest,
    )
    else none

unfoldable pub sized_chunk : ℕ → Option ℕ → List ℕ → Option (List ℕ × List ℕ)
sized_chunk line_end none rest = none
sized_chunk line_end (some len) rest = if len == 0 then none else chunk_at (line_end + 2) len rest

-- One round of the loop: the chunk's bytes and the rest, or its end.
unfoldable pub next_chunk : List ℕ → Option (List ℕ × List ℕ)
unfolding unwrap_or
next_chunk rest =
    let line_end = unwrap_or (length rest) (find_subslice rest crlf) in
    sized_chunk line_end (chunk_size (take line_end rest)) rest

-- The loop, on as many rounds as the fuel.
unfoldable pub dechunk_rounds : ℕ → List ℕ → List ℕ
dechunk_rounds zero rest = []
dechunk_rounds (suc n) rest = elim (next_chunk rest) [
  | none ↦ []
  | some (bytes, after) ↦ bytes ++ dechunk_rounds n after
]

unfoldable pub dechunk : List ℕ → String
dechunk body = from_utf8_lossy (dechunk_rounds (suc (length body)) body)
