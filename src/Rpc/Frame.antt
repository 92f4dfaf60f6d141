-- ===== src/Rpc/Frame.antt =====
-- `write_frame` and `read_frame` of nauti-fabric/src/rpc.rs over a finished byte stream. The JSON
-- codec of serde is the parameter `Codec`, with the round trip that its documentation promises.
use mathlib.Core.List.{append_assoc}
use nauti_virtualizer.Prelude.{
  ℕ, ◌+◌, ◌*◌, ◌/◌, ◌%◌, ◌^◌, ◌≤◌, ◌<◌, ◌-◌, zero, suc, ◌≡◌, refl, Option, none, some, List, [],
  ◌∷◌, ◌++◌, ltb, leb, if◌then◌else◌, length, arith, ap, ◌∙◌,
}

pub record Codec (A : Type 0) : Type 0 where
  pub encode : A → List ℕ
  pub decode : List ℕ → Option A
  pub decode-encode : (a : A) → decode (encode a) ≡ some a

pub data TransportError : Type 0 where
  io connection_closed json : TransportError
  frame_too_large : ℕ → TransportError

pub data Read (A : Type 0) : Type 0 where
  ok : A → List ℕ → Read A
  err : TransportError → Read A

pub data Written : Type 0 where
  ok : List ℕ → Written
  err : TransportError → Written

abbrev pub max_frame_bytes : ℕ
max_frame_bytes = 16 * 1024 * 1024

abbrev pub u32_max : ℕ
u32_max = 2 ^ 32 - 1

-- `u32::to_le_bytes`, and `u32::from_le_bytes`
unfoldable pub to_le_bytes : ℕ → List ℕ
to_le_bytes n = n % 256 ∷ n / 256 % 256 ∷ n / 65536 % 256 ∷ n / 16777216 % 256 ∷ []

unfoldable pub from_le_bytes : ℕ → ℕ → ℕ → ℕ → ℕ
from_le_bytes a b c d = a + 256 * b + 65536 * c + 16777216 * d

-- `read_exact` into a buffer of `n` bytes: the bytes and the rest, or the end of the stream
unfoldable pub read_exact : ℕ → List ℕ → Option (List ℕ × List ℕ)
read_exact zero s = some ([], s)
read_exact (suc n) [] = none
read_exact (suc n) (b ∷ s) = elim (read_exact n s) [ none ↦ none | some (bs, r) ↦ some (b ∷ bs, r) ]

module _ {A : Type 0} (c : Codec A) where
  unfoldable pub write_frame : A → Written
  unfolding to_le_bytes
  write_frame value =
      let bytes = c.encode value in
      if leb (length bytes) u32_max
      then Written.ok (to_le_bytes (length bytes) ++ bytes)
      else Written.err (frame_too_large u32_max)

  -- `serde_json::from_slice(&buf)?`
  unfoldable pub decoded : Option A → List ℕ → Read A
  decoded none rest = Read.err json
  decoded (some a) rest = Read.ok a rest

  -- After the length: its bound, then the body, whose early end is an i/o error.
  unfoldable pub body : Option (List ℕ × List ℕ) → Read A
  unfolding decoded
  body none = Read.err io
  body (some (buf, rest)) = decoded (c.decode buf) rest

  unfoldable pub read_body : ℕ → List ℕ → Read A
  unfolding body read_exact
  read_body len s =
      if ltb max_frame_bytes len then Read.err (frame_too_large len) else body (read_exact len s)

  unfoldable pub read_frame : List ℕ → Read A
  unfolding read_body from_le_bytes
  read_frame (a ∷ b ∷ c' ∷ d ∷ s) = read_body (from_le_bytes a b c' d) s
  read_frame _ = Read.err connection_closed

read_exact-append : (bs rest : List ℕ) → read_exact (length bs) (bs ++ rest) ≡ some (bs, rest)
unfolding read_exact
read_exact-append [] rest = refl
read_exact-append (b ∷ bs) rest = ground (arith, read_exact-append bs rest)

from_le_bytes-to_le_bytes :
    (n : ℕ)
    → n ≤ u32_max
    → from_le_bytes (n % 256) (n / 256 % 256) (n / 65536 % 256) (n / 16777216 % 256) ≡ n
unfolding from_le_bytes
from_le_bytes-to_le_bytes n h = omega arith

module _ {A : Type 0} (c : Codec A) where
  read_body-append :
      (bs rest : List ℕ)
      → length bs ≤ max_frame_bytes
      → read_body c (length bs) (bs ++ rest) ≡ decoded c (c.decode bs) rest
  unfolding read_body
  read_body-append bs rest h = ground (arith, read_exact-append bs rest)

  read_header :
      (n : ℕ) (s : List ℕ) → n ≤ u32_max → read_frame c (to_le_bytes n ++ s) ≡ read_body c n s
  unfolding read_frame to_le_bytes
  read_header n s h = ap (λ m. read_body c m s) (from_le_bytes-to_le_bytes n h)

  write_frame_fits :
      (a : A)
      → length (c.encode a) ≤ u32_max
      → write_frame c a ≡ Written.ok (to_le_bytes (length (c.encode a)) ++ c.encode a)
  unfolding write_frame
  write_frame_fits a h = ground arith

  framed :
      (a : A) (frame : List ℕ)
      → length (c.encode a) ≤ u32_max
      → write_frame c a ≡ Written.ok frame
      → to_le_bytes (length (c.encode a)) ++ c.encode a ≡ frame
  framed a frame h written = cc (write_frame_fits a h)

  header-append :
      (n : ℕ) (bs rest : List ℕ)
      → n ≤ u32_max
      → read_frame c ((to_le_bytes n ++ bs) ++ rest) ≡ read_body c n (bs ++ rest)
  header-append n bs rest h = rw append_assoc (read_header n (bs ++ rest) h)

  read_body_refused :
      (n : ℕ) (s : List ℕ) → max_frame_bytes < n → read_body c n s ≡ Read.err (frame_too_large n)
  unfolding read_body
  read_body_refused n s h = ground arith

  decoded_back : (a : A) (rest : List ℕ) → decoded c (c.decode (c.encode a)) rest ≡ Read.ok a rest
  unfolding decoded
  decoded_back a rest = rw c.decode-encode

  -- What is written is read back, whatever follows it on the stream, as long as the body has at
  -- most `max_frame_bytes`.
  pub read_frame-write_frame :
      (a : A) (frame rest : List ℕ)
      → length (c.encode a) ≤ max_frame_bytes
      → write_frame c a ≡ Written.ok frame
      → read_frame c (frame ++ rest) ≡ Read.ok a rest
  read_frame-write_frame a frame rest small written = rw (← framed a frame (omega arith) written) (
      header-append (length (c.encode a)) (c.encode a) rest (omega arith)
      ∙ read_body-append (c.encode a) rest small
      ∙ decoded_back a rest)

  -- `write_frame` writes a body that is longer than `MAX_FRAME_BYTES` and no longer than `u32::MAX`,
  -- and `read_frame` refuses that frame for its length, whatever follows it.
  pub read_frame_too_large :
      (a : A) (rest : List ℕ)
      → max_frame_bytes < length (c.encode a)
      → length (c.encode a) ≤ u32_max
      → (frame : List ℕ) × (write_frame c a ≡ Written.ok frame)
        × (read_frame c (frame ++ rest) ≡ Read.err (frame_too_large (length (c.encode a))))
  read_frame_too_large a rest big fits = (
    to_le_bytes (length (c.encode a)) ++ c.encode a,
    write_frame_fits a fits,
    header-append (length (c.encode a)) (c.encode a) rest fits
        ∙ read_body_refused (length (c.encode a)) (c.encode a ++ rest) big,
  )
