-- ===== src/Http/Response.antt =====
-- `parse_http_response` of nauti-fabric/src/plan.rs.
use nauti_virtualizer.Prelude.{
  ℕ, String, Bool, false, Option, none, some, List, [], ◌∷◌, if◌then◌else◌,
}
use nauti_virtualizer.Dict.{Dict, get, insert}
use nauti_virtualizer.Http.Utf8.{from_utf8, from_utf8_lossy}
use nauti_virtualizer.Http.Text.{
  trim, split_once, split_whitespace, to_ascii_lowercase, contains_text, unsigned,
}
use nauti_virtualizer.Http.Lines.{lines}
use nauti_virtualizer.Http.Bytes.{take, drop, find_header_end, dechunk}
use nauti_virtualizer.Http.Url.{u16_bound}

pub record Response : Type 0 where
  pub status : ℕ
  pub headers : Dict String
  pub body : String

-- `iter.nth(1)`
unfoldable pub second : List String → Option String
second (a ∷ b ∷ rest) = some b
second _ = none

unfoldable pub status_number : Option String → Option ℕ
status_number none = none
status_number (some word) = unsigned 10 u16_bound word

-- The status of the first line.
unfoldable pub status_of : String → Option ℕ
status_of line = status_number (second (split_whitespace line))

unfoldable pub with_header : Option (String × String) → Dict String → Dict String
with_header none headers = headers
with_header (some (k, v)) headers = insert (to_ascii_lowercase (trim k)) (trim v) headers

-- The loop over the lines after the first.
unfoldable pub read_headers : List String → Dict String → Dict String
read_headers [] headers = headers
read_headers (line ∷ rest) headers = read_headers rest (with_header (split_once 58 line) headers)

-- `value.is_some_and(|v| v.to_ascii_lowercase().contains("chunked"))`
unfoldable pub is_chunked : Option String → Bool
is_chunked none = false
is_chunked (some v) = contains_text (to_ascii_lowercase v) "chunked"

unfoldable pub read_body : Dict String → List ℕ → String
read_body headers body_bytes =
    if is_chunked (get "transfer-encoding" headers)
    then dechunk body_bytes
    else from_utf8_lossy body_bytes

unfoldable pub respond : Option ℕ → Dict String → List ℕ → Option Response
respond none headers body_bytes = none
respond (some status) headers body_bytes =
    some (record { status = status; headers = headers; body = read_body headers body_bytes })

unfoldable pub parse_head : List String → List ℕ → Option Response
parse_head [] body_bytes = none
parse_head (line ∷ rest) body_bytes = respond (status_of line) (read_headers rest []) body_bytes

unfoldable pub parse_text : Option String → List ℕ → Option Response
parse_text none body_bytes = none
parse_text (some head) body_bytes = parse_head (lines head) body_bytes

unfoldable pub parse_split : Option ℕ → List ℕ → Option Response
parse_split none raw = none
parse_split (some split) raw = parse_text (from_utf8 (take split raw)) (drop split raw)

unfoldable pub parse_http_response : List ℕ → Option Response
parse_http_response raw = parse_split (find_header_end raw) raw
