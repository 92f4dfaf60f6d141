-- ===== src/Http/Promises.antt =====
-- What a node can rely on when it asks the head: nauti-fabric/src/plan.rs, `ask_head` and
-- `parse_head_url`.
use Prim.Native.String.{[], ◌∷◌, ◌++◌ as cat}
use Prim.Native.Char.{code}
use nauti_virtualizer.Prelude.{
  ℕ, String, ◌≤◌, ◌<◌, ◌*◌, ◌+◌, ◌==◌, leb, ◌&&◌, false, Option, none, some, inl, inr, ◌≡◌, arith,
  ap, List, ◌⊎◌, Bool-cases, sym, refl, subst,
}
use nauti_virtualizer.Vmm.Texts.{is_empty}
use nauti_virtualizer.Plan.Number.{Float}
use nauti_virtualizer.Plan.View.{PlanFragment, PlanRequest}
use nauti_virtualizer.Plan.Planner.{PlanReject, Result, ok, err, http_status}
use nauti_virtualizer.Http.Text.{
  digit, digits, unsigned, only_brackets, strip_prefix, trim, up_to, rsplit_once,
}
use nauti_virtualizer.Http.Url.{
  u16_bound, parse_head_url, after_scheme, parse_authority, split_port, with_port, checked_host,
  bad,
}
use nauti_virtualizer.Http.Response.{Response, parse_http_response}
use nauti_virtualizer.Http.Utf8.{as_bytes}
use nauti_virtualizer.Http.Named.{NamesHead, parse_head_url-NamesHead}
use nauti_virtualizer.Http.Request.{message, post_lines, request_text-message}
use nauti_virtualizer.Http.Ask.{
  or_unreachable, unreachable, complete_response, read_response, request_text, Serde, Tcp, accepted,
  answer, answered, post_ask, ask_at, ask_head, http_post, plan_endpoint_path,
}

digits_below :
    (radix bound v : ℕ) (s : String) (n : ℕ)
    → v < bound
    → digits radix bound v s ≡ some n
    → n < bound
unfolding digits
digits_below radix bound v [] n h e = ground arith
digits_below radix bound v (c ∷ s) n h e =
    ground (arith, digits_below radix bound (v * radix + digit (code c)) s n)

unsigned_below :
    (radix bound : ℕ) (s : String) (n : ℕ) → 0 < bound → unsigned radix bound s ≡ some n → n < bound
unfolding unsigned
unsigned_below radix bound [] n h e = ground arith
unsigned_below radix bound (c ∷ s) n h e =
    ground (arith, digits_below radix bound 0 s n, digits_below radix bound 0 (c ∷ s) n)

-- A host that can be dialed: more than brackets, and a port of 16 bits.
pub CanDial : Result (String × ℕ) → Type 0
CanDial (err e) = Unit
CanDial (ok at) = (only_brackets (at.0) ≡ false) × ((at.1) < u16_bound)

module _ (quoted : String → String) (base : String) where
  CanDial-checked_host :
      (host : String) (port : ℕ) → port < u16_bound → CanDial (checked_host quoted base host port)
  unfolding CanDial checked_host bad
  CanDial-checked_host host port h = elim (Bool-cases (only_brackets host)) [
    | inl e ↦ rw e tt
    | inr e ↦ rw e (e, h)
  ]

  CanDial-with_port :
      (host port : String) (o : Option ℕ)
      → ((p : ℕ) → o ≡ some p → p < u16_bound)
      → CanDial (with_port quoted base host port o)
  unfolding CanDial with_port bad
  CanDial-with_port host port none h = tt
  CanDial-with_port host port (some p) h = CanDial-checked_host host p (h p refl)

  CanDial-split_port :
      (authority : String) (o : Option (String × String))
      → CanDial (split_port quoted base authority o)
  unfolding split_port
  CanDial-split_port authority none = CanDial-checked_host authority 8080 (omega arith)
  CanDial-split_port authority (some (host, port)) =
      CanDial-with_port host port (unsigned 10 u16_bound port)
        (λ p e. unsigned_below 10 u16_bound port p (omega arith) e)

  CanDial-parse_authority : (authority : String) → CanDial (parse_authority quoted base authority)
  unfolding CanDial parse_authority bad
  CanDial-parse_authority authority = elim (Bool-cases (is_empty authority)) [
    | inl e ↦ rw e tt
    | inr e ↦ rw e (CanDial-split_port authority (rsplit_once 58 authority))
  ]

  CanDial-after_scheme : (o : Option String) → CanDial (after_scheme quoted base o)
  unfolding CanDial after_scheme bad
  CanDial-after_scheme none = tt
  CanDial-after_scheme (some rest) = CanDial-parse_authority (trim (up_to 47 rest))

  -- What `parse_head_url` accepts has a host with more than brackets, and a port of 16 bits.
  pub parse_head_url-CanDial : CanDial (parse_head_url quoted base)
  unfolding parse_head_url
  parse_head_url-CanDial = CanDial-after_scheme (strip_prefix "http://" base)

module _ (n : Float) (serde : Serde n) where
  -- Whatever the head answers, the refusal that `ask_head` makes of it carries the status of the
  -- answer.
  pub answer_status :
      (req : PlanRequest) (resp : Response) (e : PlanReject)
      → answer n serde req resp ≡ err e
      → http_status e ≡ some resp.status
  unfolding answer accepted http_status
  answer_status req resp e h = ground arith

  -- A fragment is the decoded body of an answer with a status from 200 to 299.
  pub Sourced : Response → Result (PlanFragment n) → Type 0
  Sourced resp (err e) = Unit
  Sourced resp (ok f) =
      (200 ≤ resp.status) × (resp.status ≤ 299) × (serde.decode_fragment resp.body ≡ inr f)

  accepted-Sourced :
      (resp : Response) (o : String ⊎ PlanFragment n)
      → 200 ≤ resp.status
      → resp.status ≤ 299
      → serde.decode_fragment resp.body ≡ o
      → Sourced resp (accepted n serde resp.status o)
  unfolding Sourced accepted
  accepted-Sourced resp (inl e) lo hi h = tt
  accepted-Sourced resp (inr f) lo hi h = (lo, hi, h)

  answer-Sourced : (req : PlanRequest) (resp : Response) → Sourced resp (answer n serde req resp)
  unfolding Sourced answer
  answer-Sourced req resp = elim (Bool-cases (leb 200 resp.status && leb resp.status 299)) [
    | inl e ↦
        rw e (
          accepted-Sourced resp (serde.decode_fragment resp.body) (ground arith) (ground arith)
            refl)
    | inr e ↦ rw e (elim (Bool-cases (resp.status == 403)) [
      | inl e' ↦ rw e' tt
      | inr e' ↦
          rw e'
            (elim (Bool-cases (resp.status == 404)) [ inl e'' ↦ rw e'' tt | inr e'' ↦ rw e'' tt ])
    ])
  ]

IsOk : {A : Type 0} → Result A → Type 0
IsOk (ok a) = Unit
IsOk (err e) = ⊥

err≢ok : {A : Type 0} (e : PlanReject) (a : A) → err e ≡ ok a → ⊥
unfolding IsOk
err≢ok e a h = subst IsOk (sym h) tt

value_of : {A : Type 0} → Result A → Option A
value_of (ok a) = some a
value_of (err e) = none

module _ (n : Float) (tcp : Tcp) where
  unfoldable pub authority_of : String → ℕ → String
  authority_of host port = cat host (cat ":" (n.decimal port))

  -- The bytes of the request.
  unfoldable pub wire : String → ℕ → String → List ℕ
  wire host port body =
      as_bytes (message (post_lines n (authority_of host port) plan_endpoint_path body) body)

  -- One exchange with the host and port: an HTTP/1.1 message with that body was written on a
  -- connection, and what was read to its end is the response.
  pub record Posted (host : String) (port : ℕ) (body : String) (resp : Response) : Type 0 where
    pub raw : List ℕ
    pub connected : tcp.connect (authority_of host port) ≡ none
    pub written : tcp.write_all (authority_of host port) (wire host port body) ≡ none
    pub flushed : tcp.flush (authority_of host port) ≡ none
    pub received : tcp.read_to_end (authority_of host port) (wire host port body) ≡ inr raw
    pub parsed : parse_http_response raw ≡ some resp

  no_error :
      {A : Type 0} (what : String) (o : Option String) (go : Result A) (a : A)
      → or_unreachable n tcp what o go ≡ ok a
      → (o ≡ none) × (go ≡ ok a)
  unfolding or_unreachable unreachable
  no_error what none go a h = (refl, h)
  no_error what (some e) go a h = absurd (err≢ok _ a h)

  complete-ok :
      (authority : String) (o : Option Response) (resp : Response)
      → complete_response n tcp authority o ≡ ok resp
      → o ≡ some resp
  unfolding complete_response unreachable value_of
  complete-ok authority none resp h = absurd (err≢ok _ resp h)
  complete-ok authority (some r) resp h = ap value_of h

  read-ok :
      (authority : String) (o : String ⊎ List ℕ) (resp : Response)
      → read_response n tcp authority o ≡ ok resp
      → (raw : List ℕ) × (o ≡ inr raw) × (parse_http_response raw ≡ some resp)
  unfolding read_response unreachable
  read-ok authority (inl e) resp h = absurd (err≢ok _ resp h)
  read-ok authority (inr raw) resp h =
      (raw, refl, complete-ok authority (parse_http_response raw) resp h)

  http_post-Posted :
      (host : String) (port : ℕ) (body : String) (resp : Response)
      → http_post n tcp host port plan_endpoint_path body ≡ ok resp
      → Posted host port body resp
  unfolding http_post authority_of wire
  http_post-Posted host port body resp h =
      let at = authority_of host port in
      let sent = ap as_bytes (request_text-message n tcp at plan_endpoint_path body) in
      let request = as_bytes (request_text n tcp at plan_endpoint_path body) in
      let (c, h1) = no_error _ (tcp.connect at) _ resp h in
      let (w, h2) = no_error _ (tcp.write_all at request) _ resp h1 in
      let (f, h3) = no_error _ (tcp.flush at) _ resp h2 in
      let (raw, r, p) = read-ok at (tcp.read_to_end at request) resp h3 in
      record {
        raw = raw;
        connected = c;
        written = subst (λ q. tcp.write_all at q ≡ none) sent w;
        flushed = f;
        received = subst (λ q. tcp.read_to_end at q ≡ inr raw) sent r;
        parsed = p;
      }

module _ (n : Float) (serde : Serde n) (tcp : Tcp) where
  -- What `ask_head` did to get its result: it exchanged the encoded ask with the host and port that
  -- the URL names, and the fragment is decoded from an answer in the 200s.
  pub record Asked (base_url : String) (req : PlanRequest) (f : PlanFragment n) : Type 0 where
    pub host : String
    pub port : ℕ
    pub body : String
    pub resp : Response
    pub names : NamesHead base_url host port
    pub encoded : serde.encode_request req ≡ inr body
    pub posted : Posted n tcp host port body resp
    pub sourced : Sourced n serde resp (ok f)

  module _ (base_url : String) (req : PlanRequest) (f : PlanFragment n) where
    from_answer :
        (host : String) (port : ℕ) (body : String) (r : Result Response)
        → NamesHead base_url host port
        → serde.encode_request req ≡ inr body
        → http_post n tcp host port plan_endpoint_path body ≡ r
        → answered n serde tcp req r ≡ ok f
        → Asked base_url req f
    unfolding answered
    from_answer host port body (err e) names encoded posted h = absurd (err≢ok e f h)
    from_answer host port body (ok resp) names encoded posted h = record {
      host = host;
      port = port;
      body = body;
      resp = resp;
      names = names;
      encoded = encoded;
      posted = http_post-Posted n tcp host port body resp posted;
      sourced = subst (Sourced n serde resp) h (answer-Sourced n serde req resp);
    }

    from_encoded :
        (host : String) (port : ℕ) (o : String ⊎ String)
        → NamesHead base_url host port
        → serde.encode_request req ≡ o
        → post_ask n serde tcp req (host, port) o ≡ ok f
        → Asked base_url req f
    unfolding post_ask
    from_encoded host port (inl e) names encoded h = absurd (err≢ok _ f h)
    from_encoded host port (inr body) names encoded h =
        from_answer host port body (http_post n tcp host port plan_endpoint_path body) names encoded
          refl h

    from_url :
        (r : Result (String × ℕ))
        → parse_head_url n.quoted base_url ≡ r
        → ask_at n serde tcp req r ≡ ok f
        → Asked base_url req f
    unfolding ask_at
    from_url (err e) url h = absurd (err≢ok e f h)
    from_url (ok (host, port)) url h =
        from_encoded host port (serde.encode_request req)
          (parse_head_url-NamesHead n.quoted base_url host port url) refl h

    -- Where `ask_head` returns a fragment, the URL is `http://` with an authority, which names a host
    -- and a port, and 8080 without one; an HTTP/1.1 POST of the encoded ask, whole with its body, was
    -- written to that host and port; and the fragment is decoded from the body of the response that
    -- was read back, with a status from 200 to 299.
    pub ask_head-Asked : ask_head n serde tcp base_url req ≡ ok f → Asked base_url req f
    unfolding ask_head
    ask_head-Asked h = from_url (parse_head_url n.quoted base_url) refl h
