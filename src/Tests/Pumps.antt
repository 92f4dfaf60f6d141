-- ===== src/Tests/Pumps.antt =====
-- The theorems on nauti-fabric/src/vhost/entropy.rs, with a source of zero bytes.
use nauti_virtualizer.Prelude.{
  ℕ, zero, suc, ◌*◌, ◌≤◌, true, false, some, List, [], ◌∷◌, ◌≡◌, ◌≢◌, refl, sym, ◌∙◌, ap, arith,
  length,
}
use nauti_virtualizer.Rpc.Frame.{read_exact}
use nauti_virtualizer.Entropy.{
  Stream, Urandom, Fetched, running, serve_conn, entropy_fetch, entropy_pump, Server, takes_all,
  max_request_bytes, out_of_range, exchange, received,
}
use nauti_virtualizer.Entropy.Rounds.{Fills, serve_conn_returns, serve_conn_bounded}
use nauti_virtualizer.Entropy.Exchange.{server_of, entropy_fetch-serve_conn}
use nauti_virtualizer.Entropy.Pump.{AllServe, entropy_pump_delivers}

unfoldable zeros : ℕ → List ℕ
zeros zero = []
zeros (suc n) = 0 ∷ zeros n

length-zeros : (n : ℕ) → length (zeros n) ≡ n
unfolding zeros
length-zeros zero = refl
length-zeros (suc n) = ap suc (length-zeros n)

-- The state counts the reads.
abbrev zero_bytes : Urandom ℕ
zero_bytes = record { draw = λ n s. some (zeros n, suc s) }

zero_bytes-Fills : Fills zero_bytes takes_all
unfolding Fills
zero_bytes-Fills n s s' bytes h =
    let same : zeros n ≡ bytes = ground (arith, h) in ap length (sym same) ∙ length-zeros n

-- A request for two bytes, and three bytes of the next.
abbrev cut_short : Stream
cut_short = record { bytes = 0 ∷ 0 ∷ 0 ∷ 2 ∷ 0 ∷ 0 ∷ 0 ∷ []; broken = false }

serve_conn_returns_example : (serve_conn zero_bytes takes_all cut_short (some 0)).1 ≢ running
serve_conn_returns_example = serve_conn_returns zero_bytes takes_all cut_short (some 0)

serve_conn_bounded_example :
    4 * length (serve_conn zero_bytes takes_all cut_short (some 0)).0 ≤ max_request_bytes * 7
serve_conn_bounded_example =
    serve_conn_bounded zero_bytes takes_all zero_bytes-Fills cut_short (some 0)

entropy_fetch-serve_conn_example :
    entropy_fetch 2 (server_of zero_bytes 0) ≡ Fetched.ok (0 ∷ 0 ∷ [])
unfolding zeros out_of_range
entropy_fetch-serve_conn_example =
    entropy_fetch-serve_conn zero_bytes zero_bytes-Fills 2 0 1 (0 ∷ 0 ∷ []) (omega arith) refl refl

abbrev pair : Server
pair = record { connects = true; takes = λ bytes. true; answers = λ bytes. 7 ∷ 9 ∷ [] }

entropy_pump_delivers_example :
    ((entropy_pump takes_all true false true 2 (pair ∷ pair ∷ [])).1 ≡ running)
    × (length (entropy_pump takes_all true false true 2 (pair ∷ pair ∷ [])).0 ≡ 4)
unfolding AllServe out_of_range entropy_fetch exchange received read_exact
entropy_pump_delivers_example =
    entropy_pump_delivers 2 (pair ∷ pair ∷ []) refl ((7 ∷ 9 ∷ [], refl), ((7 ∷ 9 ∷ [], refl), tt))
