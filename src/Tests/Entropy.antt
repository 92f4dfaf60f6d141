-- ===== src/Tests/Entropy.antt =====
-- The rate limit of nauti-fabric/src/vhost/rng.rs at a source that always fills the buffer.
use nauti_virtualizer.Prelude.{ℕ, ◌≤◌, ◌≡◌, refl, true, some, List, [], ◌∷◌, arith}
use nauti_virtualizer.Rng.{Source, Request, RngBackend, new_timer, process_requests, serve_request}
use nauti_virtualizer.Rng.Limit.{Within, process_requests-Within}

abbrev urandom : Source ℕ
urandom = record { read = λ n s. some (n, s) }

urandom_at_most : (n k s s' : ℕ) → urandom.read n s ≡ some (k, s') → k ≤ n
urandom_at_most n k s s' h = ground (arith, h)

abbrev buffer : ℕ → ℕ → Request
buffer head now = record {
  head_index = head;
  descriptors = record { len = 64; write_only = true } ∷ [];
  now = now;
  overrun = 5;
}

abbrev queue : List Request
queue = buffer 1 10 ∷ buffer 2 20 ∷ buffer 3 30 ∷ []

abbrev limited : RngBackend ℕ
limited = record {
  timer = new_timer (record { period_ms = 1000; max_bytes = 100 }) 0;
  source = 7;
  used = [];
}

-- 64 bytes, the 36 that are left, and after a sleep 64 again.
three_served : (process_requests urandom queue limited).1.used ≡ (3, 64) ∷ (2, 36) ∷ (1, 64) ∷ []
unfolding process_requests serve_request new_timer
three_served = refl

process_requests-Within_example : Within limited (process_requests urandom queue limited).1
process_requests-Within_example = process_requests-Within urandom urandom_at_most queue limited
