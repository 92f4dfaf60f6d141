-- ===== src/Entropy/Rounds.antt =====
-- The loop of `serve_conn` in nauti-fabric/src/vhost/entropy.rs: it ends, and what it sends is bounded.
use nauti_virtualizer.Prelude.{
  ℕ, zero, suc, ◌+◌, ◌*◌, ◌^◌, ◌≤◌, ◌<◌, Bool, true, false, Option, none, some, List, [], ◌∷◌, ◌++◌,
  ◌≡◌, ◌≢◌, ◌⊎◌, leb, ap, refl, sym, subst, length, length-append, arith, inl, inr, Bool-cases,
  Option-cases,
}
use nauti_virtualizer.Rpc.Frame.{read_exact}
use nauti_virtualizer.Http.Bytes.{take}
use nauti_virtualizer.Entropy.{
  max_request_bytes, EntropyError, Ended, running, failed, io, protocol, Stream, Urandom,
  out_of_range, to_be_bytes, from_be_bytes, Round, ends, sends, reply, request, round, serve_rounds,
  serve_conn,
}

pub read_exact-length :
    (n : ℕ) (s bs rest : List ℕ)
    → read_exact n s ≡ some (bs, rest)
    → (length bs ≡ n) × (n + length rest ≡ length s)
unfolding read_exact
read_exact-length zero s bs rest h = ground (arith, h)
read_exact-length (suc n) [] bs rest h = ground (arith, h)
read_exact-length (suc n) (b ∷ s) bs rest h = elim (Option-cases (read_exact n s)) [
  | inl e ↦ absurd (ground (arith, h, e))
  | inr ((taken, left), e) ↦
      let (l, t) = read_exact-length n s taken left e in ground (arith, h, e, l, t)
]

length-take : (n : ℕ) (bs : List ℕ) → length (take n bs) ≤ length bs
length-take zero bs = omega arith
length-take (suc n) [] = omega arith
length-take (suc n) (b ∷ bs) = omega (arith, length-take n bs)

pub from_be_bytes-to_be_bytes : (n : ℕ) → n < 2 ^ 32 → from_be_bytes (to_be_bytes n) ≡ n
unfolding from_be_bytes to_be_bytes
from_be_bytes-to_be_bytes n h = omega arith

module _ {S : Type 0} (urandom : Urandom S) (accepts : List ℕ → List ℕ → ℕ) where
  -- A read of the source fills its buffer.
  unfoldable pub Fills : Type 0
  Fills =
      (n : ℕ) (s s' : S) (bytes : List ℕ) → urandom.draw n s ≡ some (bytes, s') → length bytes ≡ n

  range_bound : (len : ℕ) → out_of_range len ≡ false → len ≤ max_request_bytes
  unfolding out_of_range
  range_bound len h = ground (arith, h)

  -- What one round did: it ended, with a part of what a length in range let it draw or with
  -- nothing, or it drew the bytes of a length in range and sent them all.
  unfoldable EndedWith : List ℕ → List ℕ → Type 0
  EndedWith incoming part =
      (part ≡ [])
      ⊎ ((len : ℕ) × (out_of_range len ≡ false)
          × (s : S) × (s' : S) × (bytes : List ℕ) × (urandom.draw len s ≡ some (bytes, s'))
          × (length part ≤ length bytes)
          × (4 ≤ length incoming))

  Did : List ℕ → S → Round urandom accepts → Type 0
  Did incoming s (ends part e) = (e ≢ running) × EndedWith incoming part
  Did incoming s (sends bytes rest s') =
      (len : ℕ) × (out_of_range len ≡ false)
      × (urandom.draw len s ≡ some (bytes, s'))
      × (4 + length rest ≡ length incoming)

  failed≢running : (e : EntropyError) → failed e ≢ running
  failed≢running e h = ground (arith, h)

  reply-Did :
      (sent incoming rest : List ℕ) (s : S) (len : ℕ) (o : Option (List ℕ × S))
      → out_of_range len ≡ false
      → 4 + length rest ≡ length incoming
      → urandom.draw len s ≡ o
      → Did incoming s (reply urandom accepts sent o rest)
  unfolding Did reply EndedWith
  reply-Did sent incoming rest s len none ok_len four e = (failed≢running io, inl refl)
  reply-Did sent incoming rest s len (some (bytes, s')) ok_len four e =
      elim (Bool-cases (leb (length bytes) (accepts sent bytes))) [
        | inl a ↦ rw a (len, ok_len, e, four)
        | inr a ↦ rw a (
          failed≢running io,
          inr (
            len,
            ok_len,
            s,
            s',
            bytes,
            e,
            length-take (accepts sent bytes) bytes,
            omega (arith, four),
          ),
        )
      ]

  request-Did :
      (sent incoming : List ℕ) (broken : Bool) (o : Option (List ℕ × List ℕ)) (s : S)
      → ((buf rest : List ℕ) → o ≡ some (buf, rest) → 4 + length rest ≡ length incoming)
      → Did incoming s (request urandom accepts sent broken o s)
  unfolding Did request EndedWith
  request-Did sent incoming true none s four = (failed≢running io, inl refl)
  request-Did sent incoming false none s four = ((λ h. ground (arith, h)), inl refl)
  request-Did sent incoming broken (some (buf, rest)) s four =
      elim (Bool-cases (out_of_range (from_be_bytes buf))) [
        | inl bad ↦ rw bad (failed≢running (protocol (from_be_bytes buf)), inl refl)
        | inr good ↦ rw good (
            reply-Did sent incoming rest s (from_be_bytes buf) (urandom.draw (from_be_bytes buf) s)
              good (four buf rest refl) refl)
      ]

  round-Did :
      (sent : List ℕ) (stream : Stream) (s : S)
      → Did stream.bytes s (round urandom accepts sent stream s)
  unfolding round
  round-Did sent stream s =
      request-Did sent stream.bytes stream.broken (read_exact 4 stream.bytes) s
        (λ buf rest e. (read_exact-length 4 stream.bytes buf rest e).1)

  -- The loop after one round.
  unfoldable pub after : ℕ → List ℕ → Bool → Round urandom accepts → List ℕ × Ended
  after n sent broken (ends part e) = (sent ++ part, e)
  after n sent broken (sends bytes rest s') =
      serve_rounds urandom accepts n (sent ++ bytes) (record { bytes = rest; broken = broken }) s'

  pub rounds_after :
      (n : ℕ) (sent : List ℕ) (stream : Stream) (s : S) (r : Round urandom accepts)
      → round urandom accepts sent stream s ≡ r
      → serve_rounds urandom accepts (suc n) sent stream s ≡ after n sent stream.broken r
  unfolding serve_rounds after
  rounds_after n sent stream s (ends part e) h = ground (arith, h)
  rounds_after n sent stream s (sends bytes rest s') h = ground (arith, h)

  after_ends :
      (n : ℕ) (sent incoming : List ℕ) (broken : Bool) (s : S) (r : Round urandom accepts)
      → ((sent' : List ℕ) (stream : Stream) (s' : S)
          → length stream.bytes < n
          → (serve_rounds urandom accepts n sent' stream s').1 ≢ running)
      → Did incoming s r
      → length incoming < suc n
      → (after n sent broken r).1 ≢ running
  unfolding after Did
  after_ends n sent incoming broken s (ends part e) ih (did, left) h = did
  after_ends n sent incoming broken s (sends bytes rest s') ih (len, range, drawn, four) h =
      ih (sent ++ bytes) (record { bytes = rest; broken = broken }) s' (omega arith)

  rounds_end :
      (n : ℕ) (sent : List ℕ) (stream : Stream) (s : S)
      → length stream.bytes < n
      → (serve_rounds urandom accepts n sent stream s).1 ≢ running
  rounds_end zero sent stream s h = absurd (omega arith)
  rounds_end (suc n) sent stream s h =
      let r = round urandom accepts sent stream s in
      subst (λ q. q.1 ≢ running) (sym (rounds_after n sent stream s r refl))
        (after_ends n sent stream.bytes stream.broken s r (rounds_end n) (round-Did sent stream s)
          h)

  -- The server ends on every finite stream: with no more rounds than the stream has bytes, and one to
  -- see its end.
  pub serve_conn_returns :
      (stream : Stream) (source : Option S) → (serve_conn urandom accepts stream source).1 ≢ running
  unfolding serve_conn
  serve_conn_returns stream none = failed≢running io
  serve_conn_returns stream (some s) =
      rounds_end (suc (length stream.bytes)) [] stream s (omega arith)

  -- At most so many bytes, by the bytes that came in.
  Within : List ℕ → List ℕ → List ℕ → Type 0
  Within out sent incoming = 4 * length out ≤ 4 * length sent + max_request_bytes * length incoming

  after-Within :
      Fills
      → (n : ℕ) (sent incoming : List ℕ) (broken : Bool) (s : S) (r : Round urandom accepts)
      → ((sent' : List ℕ) (stream : Stream) (s' : S)
          → Within (serve_rounds urandom accepts n sent' stream s').0 sent' stream.bytes)
      → Did incoming s r
      → Within (after n sent broken r).0 sent incoming
  unfolding after Did Within Fills EndedWith
  after-Within fills n sent incoming broken s (ends part e) ih (did, inl nothing) =
      omega (arith, length-append sent part, ap length nothing)
  after-Within fills n sent incoming broken s (ends part e) ih
        (did, inr (len, range, s0, s', bytes, drawn, short, four)) =
      omega (
        arith,
        length-append sent part,
        short,
        four,
        fills len s0 s' bytes drawn,
        range_bound len range,
      )
  after-Within fills n sent incoming broken s (sends bytes rest s') ih (len, range, drawn, four) =
      let later = ih (sent ++ bytes) (record { bytes = rest; broken = broken }) s' in
      omega
        (arith, later, length-append sent bytes, fills len s s' bytes drawn, range_bound len range)

  rounds-Within :
      Fills
      → (n : ℕ) (sent : List ℕ) (stream : Stream) (s : S)
      → Within (serve_rounds urandom accepts n sent stream s).0 sent stream.bytes
  unfolding Within serve_rounds
  rounds-Within fills zero sent stream s = omega arith
  rounds-Within fills (suc n) sent stream s =
      let r = round urandom accepts sent stream s in
      subst (λ q. Within (q.0) sent stream.bytes) (sym (rounds_after n sent stream s r refl))
        (after-Within fills n sent stream.bytes stream.broken s r (rounds-Within fills n)
          (round-Did sent stream s))

  -- Whatever a client sends, the server sends at most `MAX_REQUEST_BYTES` for every four bytes of it.
  pub serve_conn_bounded :
      Fills
      → (stream : Stream) (source : Option S)
      → 4 * length (serve_conn urandom accepts stream source).0
        ≤ max_request_bytes * length stream.bytes
  unfolding serve_conn Within
  serve_conn_bounded fills stream none = omega arith
  serve_conn_bounded fills stream (some s) =
      omega (arith, rounds-Within fills (suc (length stream.bytes)) [] stream s)
