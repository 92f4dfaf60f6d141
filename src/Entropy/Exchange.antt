-- ===== src/Entropy/Exchange.antt =====
-- The server and the client of nauti-fabric/src/vhost/entropy.rs on one connection.
use mathlib.Core.List.{append-nil}
use nauti_virtualizer.Prelude.{
  ℕ, ◌^◌, ◌<◌, true, false, some, List, [], ◌∷◌, ◌++◌, ◌≡◌, refl, ap, ◌∙◌, subst, length, arith,
  if◌then◌else◌,
}
use nauti_virtualizer.Rpc.Frame.{read_exact}
use nauti_virtualizer.Entropy.{
  Fetched, failed, protocol, Urandom, out_of_range, to_be_bytes, from_be_bytes, ends, sends, reply,
  request, round, serve_rounds, serve_conn, Server, received, exchange, entropy_fetch, takes_all,
}
use nauti_virtualizer.Entropy.Rounds.{from_be_bytes-to_be_bytes, after, rounds_after, Fills}

-- The server of one connection, whose client writes its request and then no more.
pub server_of : {S : Type 0} → Urandom S → S → Server
server_of urandom s = record {
  connects = true;
  takes = λ bytes. true;
  answers =
      λ bytes. (serve_conn urandom takes_all (record { bytes = bytes; broken = false }) (some s)).0;
}

module _ {S : Type 0} (urandom : Urandom S) where
  replied :
      (s : S) (bytes : List ℕ) → reply urandom takes_all [] (some (bytes, s)) [] ≡ sends bytes [] s
  unfolding reply
  replied s bytes = ground arith

  first_round :
      (len : ℕ) (s s' : S) (bytes : List ℕ)
      → len < 2 ^ 32
      → out_of_range len ≡ false
      → urandom.draw len s ≡ some (bytes, s')
      → round urandom takes_all [] (record { bytes = to_be_bytes len; broken = false }) s
        ≡ sends bytes [] s'
  unfolding round request reply read_exact out_of_range to_be_bytes from_be_bytes
  first_round len s s' bytes small range drawn =
      ap
        (λ n.
          if out_of_range n
          then ends [] (failed (protocol n))
          else reply urandom takes_all [] (urandom.draw n s) [])
        (from_be_bytes-to_be_bytes len small)
      ∙ simp (range, drawn) (replied s' bytes)

  read_exact_all : (bs : List ℕ) → read_exact (length bs) bs ≡ some (bs, [])
  unfolding read_exact
  read_exact_all [] = refl
  read_exact_all (b ∷ bs) = ground (arith, read_exact_all bs)

  -- The loop on a stream that has ended.
  at_end :
      (sent : List ℕ) (s : S)
      → (serve_rounds urandom takes_all 4 sent (record { bytes = []; broken = false }) s).0 ≡ sent
  unfolding serve_rounds round request read_exact
  at_end sent s = append-nil sent

  answer :
      (len : ℕ) (s s' : S) (bytes : List ℕ)
      → len < 2 ^ 32
      → out_of_range len ≡ false
      → urandom.draw len s ≡ some (bytes, s')
      → (server_of urandom s).answers (to_be_bytes len) ≡ bytes
  unfolding server_of serve_conn to_be_bytes after
  answer len s s' bytes small range drawn =
      ap (λ q. q.0)
        (rounds_after urandom takes_all 4 [] (record { bytes = to_be_bytes len; broken = false }) s
          (sends bytes [] s') (first_round len s s' bytes small range drawn))
      ∙ at_end ([] ++ bytes) s'

  -- A client that asks for a length in range receives exactly the bytes that the server draws for it.
  pub entropy_fetch-serve_conn :
      Fills urandom takes_all
      → (len : ℕ) (s s' : S) (bytes : List ℕ) → len < 2 ^ 32
      → out_of_range len ≡ false
      → urandom.draw len s ≡ some (bytes, s')
      → entropy_fetch len (server_of urandom s) ≡ Fetched.ok bytes
  unfolding entropy_fetch exchange received server_of Fills
  entropy_fetch-serve_conn fills len s s' bytes small range drawn =
      let sent = answer len s s' bytes small range drawn in
      let filled = fills len s s' bytes drawn in
      let whole : read_exact len bytes ≡ some (bytes, []) =
        subst (λ n. read_exact n bytes ≡ some (bytes, [])) filled (read_exact_all bytes) in
      simp (range, sent, whole)

  refused_round :
      (len : ℕ) (rest : List ℕ) (s : S)
      → len < 2 ^ 32
      → out_of_range len ≡ true
      → round urandom takes_all [] (record { bytes = to_be_bytes len ++ rest; broken = false }) s
        ≡ ends [] (failed (protocol len))
  unfolding round request read_exact to_be_bytes from_be_bytes
  refused_round len rest s small range =
      ap
        (λ n.
          if out_of_range n
          then ends [] (failed (protocol n))
          else reply urandom takes_all [] (urandom.draw n s) rest)
        (from_be_bytes-to_be_bytes len small)
      ∙ simp range

  -- A length out of range is refused on both sides with the same error: the client does not ask any
  -- server for it, and the server sends nothing and ends the connection, whatever follows.
  pub out_of_range_refused :
      (server : Server) (len : ℕ) (rest : List ℕ) (s : S)
      → len < 2 ^ 32
      → out_of_range len ≡ true
      → (entropy_fetch len server ≡ Fetched.err (protocol len))
        × (serve_conn urandom takes_all
              (record { bytes = to_be_bytes len ++ rest; broken = false })
              (some s)
            ≡ ([], failed (protocol len)))
  unfolding entropy_fetch serve_conn after
  out_of_range_refused server len rest s small range = (
    simp range,
    rounds_after urandom takes_all (length (to_be_bytes len ++ rest)) []
        (record { bytes = to_be_bytes len ++ rest; broken = false }) s
        (ends [] (failed (protocol len))) (refused_round len rest s small range),
  )
