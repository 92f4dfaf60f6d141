-- ===== src/Entropy.antt =====
-- The entropy server, its client and its pump: nauti-fabric/src/vhost/entropy.rs. A connection's
-- incoming bytes are a list with the way it ends, `/dev/urandom` is a state that `draw` reads, and a
-- socket or FIFO that is written to is the list of what it took: `accepts` says how many of the bytes
-- of a write it takes, after those that it took before. Deadlines are part of what a connection
-- answers.
use nauti_virtualizer.Prelude.{
  ℕ, zero, suc, String, ◌+◌, ◌*◌, ◌/◌, ◌%◌, Bool, true, false, not, ◌||◌, ◌==◌, leb, ltb, Option,
  none, some, List, [], ◌∷◌, ◌++◌, if◌then◌else◌, length,
}
use nauti_virtualizer.Rpc.Frame.{read_exact}
use nauti_virtualizer.Http.Bytes.{take}
pub mod Rounds
pub mod Exchange
pub mod Pump

abbrev pub max_request_bytes : ℕ
max_request_bytes = 1048576

-- `EntropyError`, without the texts
pub data EntropyError : Type 0 where
  connect io mkfifo : EntropyError
  protocol : ℕ → EntropyError

pub data Fetched : Type 0 where
  ok : List ℕ → Fetched
  err : EntropyError → Fetched

-- How a server or a pump stands: it returned, with an error or without, or it goes on.
pub data Ended : Type 0 where
  returned running : Ended
  failed : EntropyError → Ended

pub record Stream : Type 0 where
  pub bytes : List ℕ
  -- the connection ends in an error that is not its orderly end
  pub broken : Bool

pub record Urandom (S : Type 0) : Type 0 where
  -- `read_exact` of a buffer of that many bytes
  pub draw : ℕ → S → Option (List ℕ × S)

unfoldable pub out_of_range : ℕ → Bool
out_of_range len = len == 0 || ltb max_request_bytes len

-- `u32::to_be_bytes`, and `u32::from_be_bytes` of a buffer of four
unfoldable pub to_be_bytes : ℕ → List ℕ
to_be_bytes n = n / 16777216 % 256 ∷ n / 65536 % 256 ∷ n / 256 % 256 ∷ n % 256 ∷ []

unfoldable pub from_be_bytes : List ℕ → ℕ
from_be_bytes (a ∷ b ∷ c ∷ d ∷ rest) = 16777216 * a + 65536 * b + 256 * c + d
from_be_bytes _ = 0

module _ {S : Type 0} (urandom : Urandom S) (accepts : List ℕ → List ℕ → ℕ) where
  -- What one round of the loop does: it ends, with the bytes that a failed write left behind, or it
  -- sends bytes and goes on with the rest.
  pub data Round : Type 0 where
    ends : List ℕ → Ended → Round
    sends : List ℕ → List ℕ → S → Round

  unfoldable pub reply : List ℕ → Option (List ℕ × S) → List ℕ → Round
  reply sent none rest = ends [] (failed io)
  reply sent (some (bytes, s)) rest =
      if leb (length bytes) (accepts sent bytes)
      then sends bytes rest s
      else ends (take (accepts sent bytes) bytes) (failed io)

  unfoldable pub request : List ℕ → Bool → Option (List ℕ × List ℕ) → S → Round
  request sent broken none s = if broken then ends [] (failed io) else ends [] returned
  request sent broken (some (len_buf, rest)) s =
      if out_of_range (from_be_bytes len_buf)
      then ends [] (failed (protocol (from_be_bytes len_buf)))
      else reply sent (urandom.draw (from_be_bytes len_buf) s) rest

  unfoldable pub round : List ℕ → Stream → S → Round
  round sent stream s = request sent stream.broken (read_exact 4 stream.bytes) s

  -- The loop of `serve_conn`, after the bytes that were sent before, on as many rounds as the fuel.
  unfoldable pub serve_rounds : ℕ → List ℕ → Stream → S → List ℕ × Ended
  serve_rounds zero sent stream s = (sent, running)
  serve_rounds (suc n) sent stream s = elim (round sent stream s) [
    | ends part e ↦ (sent ++ part, e)
    | sends bytes rest s' ↦
        serve_rounds n (sent ++ bytes) (record { bytes = rest; broken = stream.broken }) s'
  ]

  -- `none` is a `/dev/urandom` that cannot be opened.
  unfoldable pub serve_conn : Stream → Option S → List ℕ × Ended
  serve_conn stream none = ([], failed io)
  serve_conn stream (some s) = serve_rounds (suc (length stream.bytes)) [] stream s

-- A server as its client sees it: none when it cannot be connected to, or else whether it takes the
-- bytes that are written, and the bytes that it sends back.
pub record Server : Type 0 where
  pub connects : Bool
  pub takes : List ℕ → Bool
  pub answers : List ℕ → List ℕ

unfoldable pub received : Option (List ℕ × List ℕ) → Fetched
received none = Fetched.err io
received (some (buf, rest)) = Fetched.ok buf

unfoldable pub exchange : ℕ → Server → Fetched
exchange len server =
    if not server.connects
    then Fetched.err connect
    else if not (server.takes (to_be_bytes len))
    then Fetched.err io
    else received (read_exact len (server.answers (to_be_bytes len)))

unfoldable pub entropy_fetch : ℕ → Server → Fetched
entropy_fetch len server =
    if out_of_range len then Fetched.err (protocol len) else exchange len server

module _ (accepts : List ℕ → List ℕ → ℕ) where
  -- One round of the pump: what the FIFO holds then, or the error that ends it.
  unfoldable pub forward : List ℕ → Fetched → List ℕ × Option EntropyError
  forward fifo (Fetched.err e) = (fifo, some e)
  forward fifo (Fetched.ok bytes) =
      if leb (length bytes) (accepts fifo bytes)
      then (fifo ++ bytes, none)
      else (fifo ++ take (accepts fifo bytes) bytes, some io)

  -- The loop of `entropy_pump`, over the server that each of its fetches meets.
  unfoldable pub pump_rounds : ℕ → List Server → List ℕ → List ℕ × Ended
  pump_rounds chunk [] fifo = (fifo, running)
  pump_rounds chunk (server ∷ later) fifo =
      let (held, problem) = forward fifo (entropy_fetch chunk server) in
      elim problem [ some e ↦ (held, failed e) | none ↦ pump_rounds chunk later held ]

  -- `exists` and `made` stand for the FIFO's path: it is there, or `mkfifo` makes it; `opens` for
  -- opening it.
  unfoldable pub entropy_pump : Bool → Bool → Bool → ℕ → List Server → List ℕ × Ended
  entropy_pump exists made opens chunk servers =
      if out_of_range chunk
      then ([], failed (protocol chunk))
      else if not (exists || made)
      then ([], failed mkfifo)
      else if not opens
      then ([], failed io)
      else pump_rounds chunk servers []

-- A socket or FIFO that takes whatever is written.
abbrev pub takes_all : List ℕ → List ℕ → ℕ
takes_all sent more = length more
