-- ===== src/Rng.antt =====
-- The virtio-rng backend of nauti-fabric/src/vhost/rng.rs: the requests of one queue under the rate
-- limit of its timer. Time is in nanoseconds. A request comes with the reading of the clock that it
-- makes, and with the time that `sleep` takes beyond the one asked for, if it sleeps. Reading the
-- source into guest memory (`read_volatile_from`) is a field of `Source`, which answers with the
-- number of bytes. The ring's used entries are a list; entropy sources are never poisoned.
pub mod Limit
use nauti_virtualizer.Prelude.{
  ℕ, ◌+◌, ◌-◌, ◌*◌, ◌/◌, Bool, true, false, not, ◌||◌, Option, none, some, List, [], ◌∷◌, ◌++◌,
  length, ltb, leb, ◌==◌, if◌then◌else◌,
}

pub record Source (S : Type 0) : Type 0 where
  pub read : ℕ → S → Option (ℕ × S)

pub record RngConfig : Type 0 where
  pub period_ms : ℕ
  pub max_bytes : ℕ

-- `MAX_PERIOD_MS`
abbrev pub max_period_ms : ℕ
max_period_ms = 65536

unfoldable pub validate : RngConfig → Bool
validate c = not (c.period_ms == 0 || ltb max_period_ms c.period_ms)

pub record TimerConfig : Type 0 where
  pub period_ms : ℕ
  pub period_start : ℕ
  pub max_bytes : ℕ
  pub quota_remaining : ℕ

unfoldable pub new_timer : RngConfig → ℕ → TimerConfig
new_timer c now = record {
  period_ms = c.period_ms;
  period_start = now;
  max_bytes = c.max_bytes;
  quota_remaining = c.max_bytes;
}

pub record Descriptor : Type 0 where
  pub len : ℕ
  pub write_only : Bool

pub record Request : Type 0 where
  pub head_index : ℕ
  pub descriptors : List Descriptor
  pub now : ℕ
  pub overrun : ℕ

-- The errors of `process_requests`.
pub data RngError : Type 0 where
  unexpected_descriptor_count : ℕ → RngError
  unexpected_read_descriptor unexpected_timer_value source_read : RngError

pub record RngBackend (S : Type 0) : Type 0 where
  pub timer : TimerConfig
  pub source : S
  pub used : List (ℕ × ℕ)

abbrev pub ms : ℕ
ms = 1_000_000

unfoldable pub restart : TimerConfig → ℕ → TimerConfig
restart t now = record t { period_start = now; quota_remaining = t.max_bytes }

-- A new period, after a sleep where the old one has no bytes left.
unfoldable pub renew_within : TimerConfig → ℕ → ℕ → ℕ → TimerConfig
unfolding restart
renew_within t elapsed now overrun =
    if leb t.period_ms elapsed
    then restart t now
    else if t.quota_remaining == 0
    then restart t (now + (t.period_ms - elapsed) * ms + overrun)
    else t

unfoldable pub renew : TimerConfig → ℕ → ℕ → Option TimerConfig
unfolding renew_within
renew t now overrun =
    if ltb now t.period_start
    then none
    else some (renew_within t ((now - t.period_start) / ms) now overrun)

unfoldable pub to_read : TimerConfig → ℕ → ℕ
to_read t len = if ltb t.quota_remaining len then t.quota_remaining else len

module _ {S : Type 0} (src : Source S) where
  -- What the source answered is taken off the quota and added to the ring.
  unfoldable pub complete :
      ℕ → TimerConfig → Option (ℕ × S) → RngBackend S → Option RngError × RngBackend S
  complete head t none b = (some source_read, record b { timer = t })
  complete head t (some (len, s)) b = (
    none,
    record {
      timer = record t { quota_remaining = t.quota_remaining - len };
      source = s;
      used = (head, len) ∷ b.used;
    },
  )

  unfoldable pub fill :
      Request → Descriptor → Option TimerConfig → RngBackend S → Option RngError × RngBackend S
  unfolding complete to_read
  fill r d none b = (some unexpected_timer_value, b)
  fill r d (some t) b = complete r.head_index t (src.read (to_read t d.len) b.source) b

  unfoldable pub serve_descriptors :
      Request → List Descriptor → RngBackend S → Option RngError × RngBackend S
  unfolding fill renew
  serve_descriptors r (d ∷ []) b =
      if not d.write_only
      then (some unexpected_read_descriptor, b)
      else fill r d (renew b.timer r.now r.overrun) b
  serve_descriptors r ds b = (some (unexpected_descriptor_count (length ds)), b)

  unfoldable pub serve_request : Request → RngBackend S → Option RngError × RngBackend S
  unfolding serve_descriptors
  serve_request r b = serve_descriptors r r.descriptors b

  -- `?` of the loop: an error ends it, with what has been served before.
  abbrev pub go_on :
      Option RngError × RngBackend S
      → (RngBackend S → Option RngError × RngBackend S)
      → Option RngError × RngBackend S
  go_on (none, b) next = next b
  go_on (some e, b) next = (some e, b)

  unfoldable pub process_requests : List Request → RngBackend S → Option RngError × RngBackend S
  process_requests [] b = (none, b)
  process_requests (r ∷ rs) b = go_on (serve_request r b) (process_requests rs)
