-- ===== src/Http/Ask.antt =====
-- `ask_head` of nauti-fabric/src/plan.rs and the exchange under it. The sockets of the standard
-- library are the parameter `Tcp`, serde the parameter `Serde`. An error that either reports is the
-- text that it prints.
use Prim.Native.String.{[], ◌∷◌, ◌++◌ as cat, count}
use nauti_virtualizer.Prelude.{
  ℕ, String, zero, suc, ◌&&◌, ◌==◌, leb, List, Option, none, some, ◌⊎◌, inl, inr, if◌then◌else◌,
  length,
}
use nauti_virtualizer.Dict.{get}
use nauti_virtualizer.Json.{Value, at, as_str}
use nauti_virtualizer.Plan.Number.{Float}
use nauti_virtualizer.Plan.Text.{is_blank}
use nauti_virtualizer.Plan.View.{PlanFragment, PlanRequest}
use nauti_virtualizer.Plan.Planner.{
  Result, ok, err, unknown_role, escalate_nowhere, head_unreachable, bad_response,
}
use nauti_virtualizer.Http.Utf8.{as_bytes}
use nauti_virtualizer.Http.Text.{trim}
use nauti_virtualizer.Http.Url.{parse_head_url}
use nauti_virtualizer.Http.Response.{Response, parse_http_response}

-- One connection: what goes wrong in each call, or the bytes that are read to its end.
pub record Tcp : Type 0 where
  pub connect : String → Option String
  pub write_all : String → List ℕ → Option String
  pub flush : String → Option String
  pub read_to_end : String → List ℕ → String ⊎ List ℕ

pub record Serde (n : Float) : Type 0 where
  pub encode_request : PlanRequest → String ⊎ String
  pub decode_fragment : String → String ⊎ PlanFragment n
  pub parse : String → Option (Value n.F)

abbrev pub plan_endpoint_path : String
plan_endpoint_path = "/v1/plan"

unfoldable pub take_chars : ℕ → String → String
take_chars zero s = []
take_chars (suc n) [] = []
take_chars (suc n) (c ∷ s) = c ∷ take_chars n s

unfoldable pub truncate : String → ℕ → String
unfolding trim take_chars
truncate s max = if leb (count (trim s)) max then trim s else cat (take_chars max (trim s)) "…"

unfoldable pub detail_of : {F : Type 0} → Option (Value F) → Option String
unfolding at as_str
detail_of none = none
detail_of (some value) = as_str (at value "detail")

-- `headers.get(…).filter(|s| !s.trim().is_empty())`, or else the JSON `detail`
unfoldable pub named_constraint : Option String → Option String → Option String
unfolding is_blank
named_constraint none detail = detail
named_constraint (some text) detail = if is_blank text then detail else some text

module _ (n : Float) (serde : Serde n) where
  unfoldable pub json_detail : String → Option String
  unfolding detail_of
  json_detail body = detail_of (serde.parse body)

  unfoldable pub accepted : ℕ → String ⊎ PlanFragment n → Result (PlanFragment n)
  accepted status (inl e) =
      err (bad_response status "missing-field" (cat "body is not a PlanFragment: " e))
  accepted status (inr fragment) = ok fragment

  -- The `match` on the status.
  unfoldable pub answer : PlanRequest → Response → Result (PlanFragment n)
  answer req resp =
      if leb 200 resp.status && leb resp.status 299
      then accepted resp.status (serde.decode_fragment resp.body)
      else if resp.status == 403
      then err (
          escalate_nowhere
            (named_constraint (get "x-escalate-constraint" resp.headers) (json_detail resp.body)))
      else if resp.status == 404
      then err (unknown_role req.role)
      else err (
          bad_response resp.status
            (if leb 500 resp.status then "backend-down" else "executor-error")
            (truncate resp.body 200))

module _ (n : Float) (tcp : Tcp) where
  unfoldable pub unreachable : {A : Type 0} → String → Result A
  unreachable detail = err (head_unreachable detail)

  -- `map_err(…)?` on a call that returns nothing
  unfoldable pub or_unreachable : {A : Type 0} → String → Option String → Result A → Result A
  unfolding unreachable
  or_unreachable what none go = go
  or_unreachable what (some e) go = unreachable (cat what (cat ": " e))

  unfoldable pub request_text : String → String → String → String
  request_text authority path body = cat "POST " (
      cat path (
        cat " HTTP/1.1\r\nHost: " (
          cat authority (
            cat "\r\nContent-Type: application/json\r\nContent-Length: " (
              cat (n.decimal (length (as_bytes body)))
                (cat "\r\nAccept: application/json\r\nConnection: close\r\n\r\n" body))))))

  unfoldable pub complete_response : String → Option Response → Result Response
  unfolding unreachable
  complete_response authority none =
      unreachable (cat authority " closed with no complete HTTP response")
  complete_response authority (some resp) = ok resp

  unfoldable pub read_response : String → String ⊎ List ℕ → Result Response
  read_response authority (inl e) = unreachable (cat "read from " (cat authority (cat ": " e)))
  read_response authority (inr raw) = complete_response authority (parse_http_response raw)

  unfoldable pub http_post : String → ℕ → String → String → Result Response
  http_post host port path body =
      let authority = cat host (cat ":" (n.decimal port)) in
      let request = as_bytes (request_text authority path body) in
      or_unreachable (cat "connect " authority) (tcp.connect authority) (
        or_unreachable (cat "write to " authority) (tcp.write_all authority request) (
          or_unreachable (cat "flush to " authority) (tcp.flush authority)
            (read_response authority (tcp.read_to_end authority request))))

module _ (n : Float) (serde : Serde n) (tcp : Tcp) where
  unfoldable pub answered : PlanRequest → Result Response → Result (PlanFragment n)
  answered req (err e) = err e
  answered req (ok resp) = answer n serde req resp

  unfoldable pub post_ask : PlanRequest → String × ℕ → String ⊎ String → Result (PlanFragment n)
  post_ask req at (inl e) =
      err (bad_response 0 "executor-error" (cat "cannot encode PlanRequest: " e))
  post_ask req at (inr body) = answered req (http_post n tcp (at.0) (at.1) plan_endpoint_path body)

  unfoldable pub ask_at : PlanRequest → Result (String × ℕ) → Result (PlanFragment n)
  ask_at req (err e) = err e
  ask_at req (ok at) = post_ask req at (serde.encode_request req)

  unfoldable pub ask_head : String → PlanRequest → Result (PlanFragment n)
  ask_head base_url req = ask_at req (parse_head_url n.quoted base_url)
