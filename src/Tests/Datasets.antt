-- ===== src/Tests/Datasets.antt =====
-- The theorem on tools/dataset-validate at a file with one record.
use nauti_virtualizer.Prelude.{ℕ, String, true, false, [], ◌∷◌, inl, inr, ◌≡◌, ◌↔◌}
use nauti_virtualizer.Json.{Value, text, array, object, field, end, cons, nil}
use nauti_virtualizer.Dataset.{Host, DatasetFile, contents, main}
use nauti_virtualizer.Dataset.Valid.{GoodFileOf, main_success_iff}

abbrev message : String → String → Value ℕ
message role content = object (field "role" (text role) (field "content" (text content) end))

abbrev messages : Value ℕ
messages = array (
    cons (message "system" "Answer briefly.") (
      cons (message "user" "What grants a lease?")
        (cons (message "assistant" "lease_exclusive does.") nil)))

abbrev legacy : Value ℕ
legacy = object (field "messages" messages (field "grounding" (text "legacy") end))

abbrev host : Host
host = record {
  F = ℕ;
  parse = λ line. inr legacy;
  path = λ path. record { exists = true; is_file = false; contents = inl "is a directory" };
  identifier_tokens = λ t. [];
  has_secret = λ t. false;
  to_lowercase = λ t. t;
  quoted = λ t. t;
  quoted_option = λ o. "None";
  decimal = λ n. "n";
  json_text = λ v. "value";
}

abbrev read : String → DatasetFile
read path = contents "a record"

main_success_iff_example : (main host read ("corpus" ∷ []) ≡ 0) ↔ GoodFileOf host (read "corpus")
main_success_iff_example = main_success_iff host read "corpus"
