-- ===== src/Tests/Clients.antt =====
-- The theorems on the HTTP client of nauti-fabric/src/plan.rs at short exchanges, with the fleet's
-- numbers of MiB for the floats.
use nauti_virtualizer.Prelude.{ℕ, none, List, [], ◌∷◌, inr, ◌≡◌, refl, arith}
use nauti_virtualizer.Plan.View.{PlanFragment, PlanRequest}
use nauti_virtualizer.Http.Utf8.{
  pieces, next_char, is_continuation, last_byte, third_byte, after_three, after_four,
  second_of_three, second_of_four, lossy, strict, from_u32, from_utf8, from_utf8_lossy, encode_utf8,
  as_bytes,
}
use nauti_virtualizer.Vmm.Texts.{trim_start, trim_end, is_empty}
use nauti_virtualizer.Plan.Text.{is_whitespace, is_blank}
use nauti_virtualizer.Http.Lines.{lines, line_ends}
use nauti_virtualizer.Dict.{get, insert}
use nauti_virtualizer.Http.Text.{
  trim, up_to, unsigned, digits, digit, split, split_once, rsplit_once, behind, or_here,
  strip_prefix, contains_text, to_ascii_lowercase, lower, split_whitespace, strip_cr, only_brackets,
}
use nauti_virtualizer.Http.Url.{
  parse_head_url, after_scheme, parse_authority, split_port, with_port, checked_host, bad,
}
use nauti_virtualizer.Http.Bytes.{
  dechunk_rounds, dechunk, chunk_size, find_subslice, at_front, one_on, find_header_end,
  header_end_at, bare_header_end,
}
use nauti_virtualizer.Http.Chunks.{
  Chunk, IsChunk, AreChunks, encode, payload, dechunk_rounds_enough, dechunk-encode,
}
use nauti_virtualizer.Http.Sizes.{Announces, next, done, decimal, small_letter, given, absent}
use nauti_virtualizer.Http.Slices.{NoCr}
use nauti_virtualizer.Http.Response.{
  Response, parse_http_response, parse_split, parse_text, parse_head, respond, status_of,
  status_number, second, read_headers, with_header, is_chunked, read_body,
}
use nauti_virtualizer.Http.Ask.{
  Serde, Tcp, ask_head, ask_at, post_ask, http_post, or_unreachable, unreachable, read_response,
  complete_response, answered, answer, accepted, named_constraint, json_detail, detail_of, truncate,
  request_text,
}
use nauti_virtualizer.Http.Promises.{Asked, ask_head-Asked}
use nauti_virtualizer.Tests.Fleets.{whole}

-- `1\r\nA\r\n0\r\n`
abbrev one_letter : List ℕ
one_letter = 49 ∷ 13 ∷ 10 ∷ 65 ∷ 13 ∷ 10 ∷ 48 ∷ 13 ∷ 10 ∷ []

dechunk_rounds_enough_example : dechunk_rounds 20 one_letter ≡ dechunk_rounds 10 one_letter
dechunk_rounds_enough_example = dechunk_rounds_enough 20 one_letter (omega arith)

-- `0a;x` and ten letters: digits of either kind, a zero in front, and an extension.
abbrev greeting : Chunk
greeting = record {
  line = 48 ∷ 97 ∷ 59 ∷ 120 ∷ [];
  bytes = 65 ∷ 66 ∷ 67 ∷ 68 ∷ 69 ∷ 70 ∷ 71 ∷ 72 ∷ 73 ∷ 74 ∷ [];
}

greeting-IsChunk : IsChunk greeting
unfolding NoCr
greeting-IsChunk = record {
  no_cr = (refl, (refl, (refl, (refl, tt))));
  size = record {
    first = 48;
    later = 97 ∷ [];
    extension = 59 ∷ 120 ∷ [];
    written = refl;
    number =
        next 0 48 0 10 (97 ∷ []) (decimal 0 (omega arith))
          (next 0 97 10 10 [] (small_letter 0 (omega arith)) (done 10));
    is_extension = given (120 ∷ []);
  };
  some_bytes = omega arith;
}

zero_line : Announces (48 ∷ []) 0
zero_line = record {
  first = 48;
  later = [];
  extension = [];
  written = refl;
  number = next 0 48 0 0 [] (decimal 0 (omega arith)) (done 0);
  is_extension = absent;
}

dechunk-encode_example :
    dechunk (encode (greeting ∷ []) (48 ∷ []) []) ≡ from_utf8_lossy (payload (greeting ∷ []))
unfolding AreChunks NoCr encode
dechunk-encode_example =
    dechunk-encode (greeting ∷ []) (48 ∷ []) [] (greeting-IsChunk, tt) (refl, tt) zero_line
      (omega arith)

abbrev fragment : PlanFragment whole
fragment = record {
  node_id = "asker";
  role = "coder";
  host_key = "near";
  slot = "s0";
  model_id = "m";
  reason = "fits";
  resource_id = none;
  rtt_ms = none;
}

abbrev serde : Serde whole
serde = record {
  encode_request = λ r. inr "{}";
  decode_fragment = λ s. inr fragment;
  parse = λ s. none;
}

abbrev asked : PlanRequest
asked = record { node_id = "asker"; role = "coder" }

abbrev forbidden : Response
forbidden = record { status = 403; headers = ("x-escalate-constraint", "vram") ∷ []; body = "" }

abbrev head : Tcp
head = record {
  connect = λ a. none;
  write_all = λ a bytes. none;
  flush = λ a. none;
  read_to_end = λ a bytes. inr (as_bytes "HTTP/1.1 200 OK\r\n\r\n{}");
}

ask_head-Asked_example : Asked whole serde head "http://head:8080/" asked fragment
unfolding pieces next_char is_continuation last_byte third_byte after_three after_four
    second_of_three second_of_four lossy strict from_u32 from_utf8 from_utf8_lossy encode_utf8
    as_bytes trim trim_start trim_end up_to unsigned digits digit split is_empty is_whitespace
    split_once rsplit_once behind or_here strip_prefix contains_text to_ascii_lowercase lower
    split_whitespace strip_cr only_brackets lines line_ends chunk_size find_subslice at_front one_on
    find_header_end header_end_at bare_header_end dechunk parse_head_url after_scheme
    parse_authority split_port with_port checked_host bad parse_http_response parse_split parse_text
    parse_head respond status_of status_number second read_headers with_header is_chunked read_body
    ask_head ask_at post_ask http_post or_unreachable unreachable read_response complete_response
    answered answer accepted named_constraint json_detail detail_of truncate request_text is_blank
    get insert
ask_head-Asked_example = ask_head-Asked whole serde head "http://head:8080/" asked fragment refl
