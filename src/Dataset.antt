-- ===== src/Dataset.antt =====
-- The validator of fine-tuning records: tools/dataset-validate/src/lib.rs. The regular expressions,
-- the JSON parser, `str::to_lowercase` and the formatting of values are parameters, and so are the
-- files that a record names.
use Prim.Native.String.{◌++◌ as cat}
use nauti_virtualizer.Prelude.{
  ℕ, zero, suc, String, Bool, true, false, not, ◌&&◌, ◌||◌, ◌==◌, ◌+◌, Option, none, some, List, [],
  ◌∷◌, ◌++◌, ◌⊎◌, inl, inr, any, keep, length, contains, str_eq, if◌then◌else◌,
}
use nauti_virtualizer.Json.{Value, Fields, array, items, at, as_str, as_object, get_field, or_null}
use nauti_virtualizer.Plan.Text.{is_blank}
use nauti_virtualizer.Vmm.Texts.{is_empty}
use nauti_virtualizer.Http.Text.{contains_text, split}
use nauti_virtualizer.Http.Lines.{lines}
pub mod Answer
pub mod Valid

pub record DatasetIssue : Type 0 where
  pub record_number : ℕ
  pub message : String

pub record DatasetReport : Type 0 where
  pub record_count : ℕ
  pub issues : List DatasetIssue

unfoldable pub is_ok : DatasetReport → Bool
is_ok r = elim r.issues [ [] ↦ true | i ∷ is ↦ false ]

-- A grounding file: what `exists`, `is_file` and `read_to_string` answer.
pub record GroundingFile : Type 0 where
  pub exists : Bool
  pub is_file : Bool
  pub contents : String ⊎ String

pub record Host : Type 1 where
  pub F : Type 0
  pub parse : String → String ⊎ Value F
  pub path : String → GroundingFile
  pub identifier_tokens : String → List String
  pub has_secret : String → Bool
  pub to_lowercase : String → String
  -- `{:?}` of a text, `{:?}` of an optional text, a number, and a JSON value
  pub quoted : String → String
  pub quoted_option : Option String → String
  pub decimal : ℕ → String
  pub json_text : Value F → String

abbrev pub expected_roles : List String
expected_roles = "system" ∷ "user" ∷ "assistant" ∷ []

abbrev pub forbidden_markers : List String
forbidden_markers = "TBD" ∷ "TODO" ∷ "FIXME" ∷ "unverified" ∷ "placeholder" ∷ []

abbrev pub forbidden_host_markers : List String
forbidden_host_markers = "127.0.0.1" ∷ "192.168." ∷ "10.0.0." ∷ []

unfoldable pub is_text : String → Option String → Bool
is_text t none = false
is_text t (some s) = str_eq s t

-- `content.map(str::is_empty).unwrap_or(true)`
unfoldable pub no_content : Option String → Bool
no_content none = true
no_content (some s) = is_empty s

unfoldable pub or_empty : Option String → String
or_empty none = ""
or_empty (some s) = s

-- `components().any(|c| matches!(c, Component::ParentDir))`
unfoldable pub has_parent_dir : String → Bool
has_parent_dir path = any (λ segment. str_eq segment "..") (split (λ c. c == 47) path)

unfoldable pub is_none_left : List String → Bool
is_none_left [] = true
is_none_left (x ∷ xs) = false

-- `a.is_disjoint(&b)`
unfoldable pub is_disjoint : List String → List String → Bool
is_disjoint a b = not (any (λ x. contains b x) a)

module _ (h : Host) where
  unfoldable pub issue : ℕ → String → DatasetIssue
  issue number text = record { record_number = number; message = text }

  -- A line of the report, if the test asks for it.
  unfoldable pub when : Bool → ℕ → String → List DatasetIssue
  when b number text = if b then issue number text ∷ [] else []

  unfoldable pub check_message : ℕ → ℕ → Value h.F → String → List DatasetIssue
  check_message number offset message expected_role =
      when (not (is_text expected_role (as_str (at message "role")))) number (
        cat "message[" (
          cat (h.decimal offset) (
            cat "]: expected role " (
              cat (h.quoted expected_role)
                (cat ", got " (h.quoted_option (as_str (at message "role"))))))))
      ++ when (no_content (as_str (at message "content"))) number
          (cat "message[" (cat (h.decimal offset) "]: empty or non-string content"))

  unfoldable pub check_messages : ℕ → ℕ → List (Value h.F) → List String → List DatasetIssue
  check_messages number offset (m ∷ ms) (r ∷ rs) =
      check_message number offset m r ++ check_messages number (offset + 1) ms rs
  check_messages number offset _ _ = []

  -- The soft rule: the answer and the file share a token.
  unfoldable pub check_tokens : ℕ → String → String → String ⊎ String → List DatasetIssue
  check_tokens number path answer (inl error) =
      issue number (cat "cannot read grounding file " (cat (h.quoted path) (cat ": " error))) ∷ []
  check_tokens number path answer (inr file_text) =
      let file_tokens = h.identifier_tokens file_text in
      let content_tokens = h.identifier_tokens answer in
      if is_none_left file_tokens || is_none_left content_tokens
      then issue number (
          cat "either the grounding file " (
            cat (h.quoted path)
              " or the assistant content is empty; the soft grounding check is vacuous"))
        ∷ []
      else when (is_disjoint file_tokens content_tokens) number (
          cat "assistant content shares no identifier tokens with `"
            (cat path "`; the answer may be ungrounded"))

  unfoldable pub check_file : ℕ → String → String → List DatasetIssue
  check_file number path answer =
      if not (h.path path).exists
      then issue number (cat "`grounding` file " (cat (h.quoted path) " does not exist")) ∷ []
      else if (h.path path).is_file
      then check_tokens number path answer (h.path path).contents
      else []

  unfoldable pub check_grounding : ℕ → Option String → String → List DatasetIssue
  check_grounding number none answer = issue number "missing required `grounding` field" ∷ []
  check_grounding number (some path) answer =
      if str_eq path "legacy"
      then []
      else if is_empty path
      then issue number "empty `grounding` value" ∷ []
      else if has_parent_dir path
      then issue number (cat "`grounding` " (cat (h.quoted path) " escapes the repository root"))
        ∷ []
      else check_file number path answer

  unfoldable pub check_markers : ℕ → List String → String → List DatasetIssue
  check_markers number [] answer = []
  check_markers number (m ∷ ms) answer =
      when (contains_text (h.to_lowercase answer) (h.to_lowercase m)) number
        (cat "assistant content contains forbidden marker " (h.quoted m))
      ++ check_markers number ms answer

  unfoldable pub check_host_markers : ℕ → List String → String → List DatasetIssue
  check_host_markers number [] answer = []
  check_host_markers number (m ∷ ms) answer =
      when (contains_text answer m) number
        (cat "assistant content contains forbidden host marker " (h.quoted m))
      ++ check_host_markers number ms answer

  unfoldable pub check_answer : ℕ → Option String → String → List DatasetIssue
  check_answer number grounding answer =
      check_grounding number grounding answer
      ++ (check_markers number forbidden_markers answer
          ++ (check_host_markers number forbidden_host_markers answer
              ++ when (h.has_secret answer) number
                  "assistant content references a secret/password/token keyword"))

  unfoldable pub content_of : Option (Value h.F) → String
  content_of none = ""
  content_of (some message) = or_empty (as_str (at message "content"))

  unfoldable pub third : List (Value h.F) → Option (Value h.F)
  third (a ∷ b ∷ c ∷ rest) = some c
  third _ = none

  unfoldable pub grounding_of : Fields h.F → Option String
  grounding_of object = as_str (or_null (get_field "grounding" object))

  unfoldable pub wrong_messages : ℕ → Option (Value h.F) → List DatasetIssue
  wrong_messages number none = issue number "expected exactly 3 messages, got missing" ∷ []
  wrong_messages number (some v) =
      issue number (cat "expected exactly 3 messages, got " (h.json_text v)) ∷ []

  -- The array of the messages, if it has the right length.
  unfoldable pub three_messages : Option (Value h.F) → Option (List (Value h.F))
  three_messages (some (array vs)) =
      if length (items vs) == length expected_roles then some (items vs) else none
  three_messages _ = none

  unfoldable pub check_three : ℕ → Fields h.F → Option (List (Value h.F)) → List DatasetIssue
  check_three number object none = wrong_messages number (get_field "messages" object)
  check_three number object (some messages) =
      check_messages number 0 messages expected_roles
      ++ check_answer number (grounding_of object) (content_of (third messages))

  unfoldable pub check_record : ℕ → Fields h.F → List DatasetIssue
  check_record number object =
      check_three number object (three_messages (get_field "messages" object))

  unfoldable pub check_object : ℕ → Option (Fields h.F) → List DatasetIssue
  check_object number none = issue number "top-level value is not a JSON object" ∷ []
  check_object number (some object) = check_record number object

  unfoldable pub check_value : ℕ → String ⊎ Value h.F → List DatasetIssue
  check_value number (inl error) = issue number (cat "invalid JSON (" (cat error ")")) ∷ []
  check_value number (inr value) = check_object number (as_object value)

  -- The loop over the lines, with the number of the first.
  unfoldable pub check_lines : ℕ → List String → List DatasetIssue
  check_lines number [] = []
  check_lines number (line ∷ rest) =
      let later = check_lines (number + 1) rest in
      if is_blank line then later else check_value number (h.parse line) ++ later

  unfoldable pub validate_dataset_text : String → DatasetReport
  validate_dataset_text text = record {
    record_count = length (keep (λ l. not (is_blank l)) (lines text));
    issues = check_lines 1 (lines text);
  }

-- What `read_to_string` of the dataset answers, and what `validate_dataset_file` makes of it.
pub data DatasetFile : Type 0 where
  not_found : DatasetFile
  unreadable : String → DatasetFile
  contents : String → DatasetFile

pub data Validated : Type 0 where
  report : DatasetReport → Validated
  not_found : Validated
  unreadable : String → Validated

unfoldable pub validate_dataset_file : Host → DatasetFile → Validated
validate_dataset_file h DatasetFile.not_found = Validated.not_found
validate_dataset_file h (DatasetFile.unreadable e) = Validated.unreadable e
validate_dataset_file h (contents text) = report (validate_dataset_text h text)

-- The exit code of tools/dataset-validate/src/main.rs for its one argument.
unfoldable pub exit_code : Validated → ℕ
exit_code (report r) = if is_ok r then 0 else 1
exit_code _ = 2

-- `main`: another number of arguments ends with the usage.
unfoldable pub main : Host → (String → DatasetFile) → List String → ℕ
main h read (path ∷ []) = exit_code (validate_dataset_file h (read path))
main h read _ = 2
