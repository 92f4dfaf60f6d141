-- ===== src/Http/Chunks.antt =====
-- The chunk decoder of nauti-fabric/src/plan.rs: its loop ends, and a well-formed chunked body is
-- decoded to what it carries.
use nauti_virtualizer.Prelude.{
  ℕ, zero, suc, min, ◌+◌, ◌<◌, List, [], ◌∷◌, ◌++◌, Option, none, some, ◌≡◌, refl, sym, ap, length,
  length-append, arith, inl, inr, Option-cases, ◌∙◌,
}
use nauti_virtualizer.Http.Utf8.{from_utf8_lossy}
use nauti_virtualizer.Http.Bytes.{
  take, drop, find_subslice, crlf, usize_bound, unwrap_or, chunk_size, chunk_at, sized_chunk,
  next_chunk, dechunk_rounds, dechunk,
}
use nauti_virtualizer.Http.Sizes.{Announces, chunk_size-Announces}
use nauti_virtualizer.Http.Slices.{take-append, drop-append, length-drop, NoCr, find_subslice_line}

chunk_at_shorter :
    (start len : ℕ) (rest bytes after : List ℕ)
    → 0 < start
    → chunk_at start len rest ≡ some (bytes, after)
    → length after < length rest
unfolding chunk_at
chunk_at_shorter start len rest bytes after pos e =
    ground (arith, length-drop (min (min (start + len) (length rest) + 2) (length rest)) rest)

sized_chunk_shorter :
    (line_end : ℕ) (size : Option ℕ) (rest bytes after : List ℕ)
    → sized_chunk line_end size rest ≡ some (bytes, after)
    → length after < length rest
unfolding sized_chunk
sized_chunk_shorter line_end none rest bytes after e = ground arith
sized_chunk_shorter line_end (some len) rest bytes after e =
    ground (arith, chunk_at_shorter (line_end + 2) len rest bytes after)

-- Every round that finds a chunk leaves less.
next_chunk_shorter :
    (rest bytes after : List ℕ) → next_chunk rest ≡ some (bytes, after) → length after < length rest
unfolding next_chunk
next_chunk_shorter rest bytes after e =
    let line_end = unwrap_or (length rest) (find_subslice rest crlf) in
    sized_chunk_shorter line_end (chunk_size (take line_end rest)) rest bytes after e

rounds_none : (n : ℕ) (rest : List ℕ) → next_chunk rest ≡ none → dechunk_rounds (suc n) rest ≡ []
unfolding dechunk_rounds
rounds_none n rest e = ground (arith, e)

rounds_some :
    (n : ℕ) (rest bytes after : List ℕ)
    → next_chunk rest ≡ some (bytes, after)
    → dechunk_rounds (suc n) rest ≡ bytes ++ dechunk_rounds n after
unfolding dechunk_rounds
rounds_some n rest bytes after e = ground (arith, e)

rounds_agree :
    (m n : ℕ) (rest : List ℕ)
    → length rest < m
    → length rest < n
    → dechunk_rounds m rest ≡ dechunk_rounds n rest
unfolding dechunk_rounds
rounds_agree zero n rest hm hn = absurd (omega arith)
rounds_agree (suc m) zero rest hm hn = absurd (omega arith)
rounds_agree (suc m) (suc n) rest hm hn = elim (Option-cases (next_chunk rest)) [
  | inl e ↦ rounds_none m rest e ∙ sym (rounds_none n rest e)
  | inr ((bytes, after), e) ↦
      let shorter : length after < length rest = next_chunk_shorter rest bytes after e in
      rounds_some m rest bytes after e
      ∙ ap (λ later. bytes ++ later) (rounds_agree m n after (omega arith) (omega arith))
      ∙ sym (rounds_some n rest bytes after e)
]

-- The loop ends: as many rounds as the body has bytes, and one to see the end, are all that it
-- takes; more rounds change nothing.
pub dechunk_rounds_enough :
    (n : ℕ) (rest : List ℕ)
    → length rest < n
    → dechunk_rounds n rest ≡ dechunk_rounds (suc (length rest)) rest
dechunk_rounds_enough n rest h = rounds_agree n (suc (length rest)) rest h (omega arith)

pub record Chunk : Type 0 where
  pub line : List ℕ
  pub bytes : List ℕ

-- A size line without a carriage return, which announces the chunk's bytes in hexadecimal, and some
-- bytes.
pub record IsChunk (c : Chunk) : Type 0 where
  pub no_cr : NoCr c.line
  pub size : Announces c.line (length c.bytes)
  pub some_bytes : 0 < length c.bytes

unfoldable pub AreChunks : List Chunk → Type 0
AreChunks [] = Unit
AreChunks (c ∷ cs) = IsChunk c × AreChunks cs

unfoldable pub encode_chunk : Chunk → List ℕ → List ℕ
encode_chunk c rest = c.line ++ 13 ∷ 10 ∷ (c.bytes ++ 13 ∷ 10 ∷ rest)

-- A chunked body: the chunks, the line of the last one, and what follows it.
unfoldable pub encode : List Chunk → List ℕ → List ℕ → List ℕ
unfolding encode_chunk
encode [] last trailer = last ++ 13 ∷ 10 ∷ trailer
encode (c ∷ cs) last trailer = encode_chunk c (encode cs last trailer)

unfoldable pub payload : List Chunk → List ℕ
payload [] = []
payload (c ∷ cs) = c.bytes ++ payload cs

length-encode_chunk :
    (c : Chunk) (rest : List ℕ)
    → length (encode_chunk c rest) ≡ length c.line + 2 + (length c.bytes + 2 + length rest)
unfolding encode_chunk
length-encode_chunk c rest = omega (
  arith,
  length-append c.line (13 ∷ 10 ∷ (c.bytes ++ 13 ∷ 10 ∷ rest)),
  length-append c.bytes (13 ∷ 10 ∷ rest),
)

read_line :
    (line rest : List ℕ) (size : Option ℕ)
    → NoCr line
    → chunk_size line ≡ size
    → next_chunk (line ++ 13 ∷ 10 ∷ rest) ≡ sized_chunk (length line) size (line ++ 13 ∷ 10 ∷ rest)
unfolding next_chunk unwrap_or
read_line line rest size no_cr e =
    simp (find_subslice_line line rest no_cr, take-append line (13 ∷ 10 ∷ rest), e)

after_line :
    (c : Chunk) (rest : List ℕ)
    → drop (length c.line + 2) (encode_chunk c rest) ≡ c.bytes ++ 13 ∷ 10 ∷ rest
unfolding encode_chunk
after_line c rest =
    drop-append (length c.line + 2) 2 c.line (13 ∷ 10 ∷ (c.bytes ++ 13 ∷ 10 ∷ rest)) refl

after_chunk :
    (c : Chunk) (rest : List ℕ) (n : ℕ)
    → n ≡ length c.line + 2 + length c.bytes + 2
    → drop n (encode_chunk c rest) ≡ rest
unfolding encode_chunk
after_chunk c rest n e =
    drop-append n (suc (suc (length c.bytes + 2))) c.line (13 ∷ 10 ∷ (c.bytes ++ 13 ∷ 10 ∷ rest))
      (omega arith)
    ∙ drop-append (length c.bytes + 2) 2 c.bytes (13 ∷ 10 ∷ rest) refl

chunk_at-encode_chunk :
    (c : Chunk) (rest : List ℕ)
    → length (encode_chunk c rest) < usize_bound
    → chunk_at (length c.line + 2) (length c.bytes) (encode_chunk c rest) ≡ some (c.bytes, rest)
unfolding chunk_at
chunk_at-encode_chunk c rest fits =
    let total = length-encode_chunk c rest in
    let end =
      min (min (length c.line + 2 + length c.bytes) (length (encode_chunk c rest)) + 2)
        (length (encode_chunk c rest)) in
    let skipped : drop end (encode_chunk c rest) ≡ rest =
      after_chunk c rest end (omega (arith, total)) in
    let taken : take (length c.bytes) (drop (length c.line + 2) (encode_chunk c rest)) ≡ c.bytes =
      ap (take (length c.bytes)) (after_line c rest) ∙ take-append c.bytes (13 ∷ 10 ∷ rest) in
    ground (arith, total, skipped, taken)

next_chunk-encode_chunk :
    (c : Chunk) (rest : List ℕ)
    → IsChunk c
    → length (encode_chunk c rest) < usize_bound
    → next_chunk (encode_chunk c rest) ≡ some (c.bytes, rest)
unfolding sized_chunk encode_chunk
next_chunk-encode_chunk c rest good fits =
    let small : length c.bytes < usize_bound = omega (arith, length-encode_chunk c rest, fits) in
    read_line c.line (c.bytes ++ 13 ∷ 10 ∷ rest) (some (length c.bytes)) good.no_cr
      (chunk_size-Announces c.line (length c.bytes) good.size small)
    ∙ ground (arith, chunk_at-encode_chunk c rest fits)

last_chunk :
    (last trailer : List ℕ)
    → NoCr last
    → Announces last 0
    → next_chunk (encode [] last trailer) ≡ none
unfolding encode sized_chunk
last_chunk last trailer no_cr zero_size =
    read_line last trailer (some 0) no_cr (chunk_size-Announces last 0 zero_size (omega arith))

rounds-encode :
    (cs : List Chunk) (last trailer : List ℕ) (n : ℕ)
    → AreChunks cs
    → NoCr last
    → Announces last 0
    → length (encode cs last trailer) < usize_bound
    → length (encode cs last trailer) < n
    → dechunk_rounds n (encode cs last trailer) ≡ payload cs
unfolding encode payload AreChunks dechunk_rounds
rounds-encode cs last trailer zero good no_cr zero_size fits fuel = absurd (omega arith)
rounds-encode [] last trailer (suc n) good no_cr zero_size fits fuel =
    rounds_none n (encode [] last trailer) (last_chunk last trailer no_cr zero_size)
rounds-encode (c ∷ cs) last trailer (suc n) good no_cr zero_size fits fuel =
    let rest = encode cs last trailer in
    let total = length-encode_chunk c rest in
    rounds_some n (encode_chunk c rest) c.bytes rest (next_chunk-encode_chunk c rest (good.0) fits)
    ∙ ap (λ later. c.bytes ++ later)
        (rounds-encode cs last trailer n (good.1) no_cr zero_size (omega (arith, total))
          (omega (arith, total)))

-- Take chunks of one byte or more, each after a line that holds its length in hexadecimal digits of
-- either case and an extension if any, then a line for the length 0, and whatever follows. If the
-- whole has less than 2^64 bytes and no size line holds a carriage return, it is decoded to the text
-- of the bytes that the chunks carry.
pub dechunk-encode :
    (cs : List Chunk) (last trailer : List ℕ)
    → AreChunks cs
    → NoCr last
    → Announces last 0
    → length (encode cs last trailer) < usize_bound
    → dechunk (encode cs last trailer) ≡ from_utf8_lossy (payload cs)
unfolding dechunk
dechunk-encode cs last trailer good no_cr zero_size fits = ap from_utf8_lossy (
    rounds-encode cs last trailer (suc (length (encode cs last trailer))) good no_cr zero_size fits
      (omega arith))
