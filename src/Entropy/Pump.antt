-- ===== src/Entropy/Pump.antt =====
-- The progress of `entropy_pump` in nauti-fabric/src/vhost/entropy.rs.
use nauti_virtualizer.Prelude.{
  ℕ, ◌+◌, ◌*◌, true, false, Option, none, some, List, [], ◌∷◌, ◌++◌, ◌≡◌, refl, ap, ◌∙◌, subst,
  length, length-append, arith, inl, inr, Bool-cases,
}
use nauti_virtualizer.Rpc.Frame.{read_exact}
use nauti_virtualizer.Entropy.{
  Fetched, running, out_of_range, to_be_bytes, Server, received, exchange, entropy_fetch, forward,
  pump_rounds, entropy_pump, takes_all,
}
use nauti_virtualizer.Entropy.Rounds.{read_exact-length}

-- Each fetch of the pump succeeds, and the FIFO takes what is written.
unfoldable pub AllServe : ℕ → List Server → Type 0
AllServe chunk [] = Unit
AllServe chunk (server ∷ later) =
    ((bytes : List ℕ) × (entropy_fetch chunk server ≡ Fetched.ok bytes)) × AllServe chunk later

-- What was fetched has the length asked for.
Whole : ℕ → Fetched → Type 0
Whole chunk (Fetched.ok bytes) = length bytes ≡ chunk
Whole chunk (Fetched.err e) = Unit

received-Whole :
    (chunk : ℕ) (s : List ℕ) (o : Option (List ℕ × List ℕ))
    → read_exact chunk s ≡ o
    → Whole chunk (received o)
unfolding Whole received
received-Whole chunk s none h = tt
received-Whole chunk s (some (buf, rest)) h = (read_exact-length chunk s buf rest h).0

entropy_fetch-Whole : (chunk : ℕ) (server : Server) → Whole chunk (entropy_fetch chunk server)
unfolding Whole entropy_fetch exchange
entropy_fetch-Whole chunk server = elim (Bool-cases (out_of_range chunk)) [
  | inl e ↦ rw e tt
  | inr e ↦ rw e (elim (Bool-cases server.connects) [
    | inr e' ↦ rw e' tt
    | inl e' ↦ rw e' (elim (Bool-cases (server.takes (to_be_bytes chunk))) [
      | inr e'' ↦ rw e'' tt
      | inl e'' ↦ rw e'' (
          received-Whole chunk (server.answers (to_be_bytes chunk))
            (read_exact chunk (server.answers (to_be_bytes chunk))) refl)
    ])
  ])
]

fetched-length :
    (chunk : ℕ) (server : Server) (bytes : List ℕ)
    → entropy_fetch chunk server ≡ Fetched.ok bytes
    → length bytes ≡ chunk
unfolding Whole
fetched-length chunk server bytes h = subst (Whole chunk) h (entropy_fetch-Whole chunk server)

pump_step :
    (chunk : ℕ) (server : Server) (later : List Server) (fifo bytes : List ℕ)
    → entropy_fetch chunk server ≡ Fetched.ok bytes
    → pump_rounds takes_all chunk (server ∷ later) fifo
      ≡ pump_rounds takes_all chunk later (fifo ++ bytes)
unfolding pump_rounds forward
pump_step chunk server later fifo bytes h = ground (arith, h)

pump_rounds_deliver :
    (chunk : ℕ) (servers : List Server) (fifo : List ℕ)
    → AllServe chunk servers
    → ((pump_rounds takes_all chunk servers fifo).1 ≡ running)
      × (length (pump_rounds takes_all chunk servers fifo).0 ≡ length fifo + length servers * chunk)
unfolding pump_rounds forward AllServe
pump_rounds_deliver chunk [] fifo all = (refl, omega arith)
pump_rounds_deliver chunk (server ∷ later) fifo ((bytes, fetched), all) =
    let (runs, delivered) = pump_rounds_deliver chunk later (fifo ++ bytes) all in
    let whole = fetched-length chunk server bytes fetched in
    let step = pump_step chunk server later fifo bytes fetched in
    (
      ap (λ q. q.1) step ∙ runs,
      ap (λ q. length (q.0)) step ∙ delivered ∙ grind (arith, length-append fifo bytes, whole),
    )

-- The pump makes progress: while the FIFO takes what is written, every fetch that its server answers
-- adds a whole chunk to the FIFO, and the pump goes on.
pub entropy_pump_delivers :
    (chunk : ℕ) (servers : List Server)
    → out_of_range chunk ≡ false
    → AllServe chunk servers
    → ((entropy_pump takes_all true false true chunk servers).1 ≡ running)
      × (length (entropy_pump takes_all true false true chunk servers).0 ≡ length servers * chunk)
unfolding entropy_pump
entropy_pump_delivers chunk servers range all =
    ground (arith, pump_rounds_deliver chunk servers [] all)
