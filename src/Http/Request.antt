-- ===== src/Http/Request.antt =====
-- The request that `http_post` of nauti-fabric/src/plan.rs writes, as an HTTP/1.1 message, and what a
-- URL of the head names.
use Prim.Native.String.{◌++◌ as cat}
use text.Mathlib.TextLemmas.{append_assoc, nil-append}
use nauti_virtualizer.Prelude.{String, List, [], ◌∷◌, ◌≡◌, ap, ◌∙◌, length}
use nauti_virtualizer.Plan.Number.{Float}
use nauti_virtualizer.Http.Utf8.{as_bytes}
use nauti_virtualizer.Http.Ask.{Tcp, request_text}

-- Lines that each end in CRLF, an empty line, and the body.
unfoldable pub message : List String → String → String
message [] body = cat "\r\n" body
message (l ∷ ls) body = cat l (cat "\r\n" (message ls body))

unfoldable pub post_lines : (n : Float) → String → String → String → List String
post_lines n authority path body =
    cat "POST " (cat path " HTTP/1.1")
    ∷ cat "Host: " authority
    ∷ "Content-Type: application/json"
    ∷ cat "Content-Length: " (n.decimal (length (as_bytes body)))
    ∷ "Accept: application/json"
    ∷ "Connection: close"
    ∷ []

-- Texts in a row, before a last one.
joined : List String → String → String
joined [] x = x
joined (l ∷ ls) x = cat l (joined ls x)

joined-append : (ls : List String) (x : String) → cat (joined ls "") x ≡ joined ls x
unfolding joined
joined-append [] x = nil-append x
joined-append (l ∷ ls) x = append_assoc l (joined ls "") x ∙ ap (cat l) (joined-append ls x)

-- `http_post` writes an HTTP/1.1 message: the lines of its head, and the body behind an empty line.
pub request_text-message :
    (n : Float) (tcp : Tcp) (authority path body : String)
    → request_text n tcp authority path body ≡ message (post_lines n authority path body) body
unfolding request_text message post_lines joined
request_text-message n tcp authority path body =
    let size = n.decimal (length (as_bytes body)) in
    let first = " HTTP/1.1" ∷ "\r\n" ∷ "Host: " ∷ [] in
    let middle = "\r\n" ∷ "Content-Type: application/json" ∷ "\r\n" ∷ "Content-Length: " ∷ [] in
    let last =
      "\r\n" ∷ "Accept: application/json" ∷ "\r\n" ∷ "Connection: close" ∷ "\r\n" ∷ "\r\n" ∷ [] in
    simp append_assoc (
      ap (λ y. cat "POST " (cat path y))
        (joined-append first _
          ∙ ap (λ y. joined first (cat authority y))
              (joined-append middle _
                ∙ ap (λ y. joined middle (cat size y)) (joined-append last body))))
