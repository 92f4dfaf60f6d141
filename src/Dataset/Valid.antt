-- ===== src/Dataset/Valid.antt =====
-- What it takes that tools/dataset-validate reports no issue: each line is a valid record.
use nauti_virtualizer.Prelude.{
  ℕ, String, true, false, ◌+◌, Option, none, some, List, [], ◌∷◌, ◌⊎◌, inl, inr, ◌≡◌, ◌↔◌, refl,
  arith, Bool-cases,
}
use nauti_virtualizer.Json.{Value, Fields, as_object, get_field}
use nauti_virtualizer.Plan.Text.{is_blank}
use nauti_virtualizer.Http.Lines.{lines}
use nauti_virtualizer.Dataset.{
  Host, expected_roles, check_messages, check_answer, content_of, third, grounding_of,
  wrong_messages, three_messages, check_three, check_record, check_object, check_value, check_lines,
  validate_dataset_text, DatasetFile, DatasetReport, report, contents, not_found, unreadable,
  validate_dataset_file, is_ok, exit_code, main,
}
use nauti_virtualizer.Dataset.Answer.{
  both-nil, GoodMessages, GoodAnswer, check_messages-nil, check_answer-nil,
}

module _ (h : Host) where
  -- Three messages with the expected roles and a good answer.
  unfoldable pub GoodThree : Option String → Option (List (Value h.F)) → Type 0
  GoodThree grounding none = ⊥
  GoodThree grounding (some messages) =
      GoodMessages h messages expected_roles
      × GoodAnswer h grounding (content_of h (third h messages))

  wrong_messages-some : (number : ℕ) (o : Option (Value h.F)) → wrong_messages h number o ≡ [] → ⊥
  unfolding wrong_messages
  wrong_messages-some number none e = ground (arith, e)
  wrong_messages-some number (some v) e = ground (arith, e)

  check_three-nil :
      (number : ℕ) (object : Fields h.F) (o : Option (List (Value h.F)))
      → (check_three h number object o ≡ []) ↔ GoodThree (grounding_of h object) o
  unfolding check_three GoodThree
  check_three-nil number object none =
      ((λ e. absurd (wrong_messages-some number (get_field "messages" object) e)), (λ g. absurd g))
  check_three-nil number object (some messages) =
      both-nil (check_messages h number 0 messages expected_roles)
        (check_answer h number (grounding_of h object) (content_of h (third h messages)))
        (check_messages-nil h number 0 messages expected_roles)
        (check_answer-nil h number (grounding_of h object) (content_of h (third h messages)))

  -- A line that parses to an object with three good messages.
  unfoldable pub GoodObject : Option (Fields h.F) → Type 0
  GoodObject none = ⊥
  GoodObject (some object) =
      GoodThree (grounding_of h object) (three_messages h (get_field "messages" object))

  unfoldable pub GoodValue : String ⊎ Value h.F → Type 0
  GoodValue (inl error) = ⊥
  GoodValue (inr value) = GoodObject (as_object value)

  check_object-nil :
      (number : ℕ) (o : Option (Fields h.F)) → (check_object h number o ≡ []) ↔ GoodObject o
  unfolding check_object check_record GoodObject
  check_object-nil number none = ((λ e. absurd (ground (arith, e))), (λ g. absurd g))
  check_object-nil number (some object) =
      check_three-nil number object (three_messages h (get_field "messages" object))

  check_value-nil :
      (number : ℕ) (v : String ⊎ Value h.F) → (check_value h number v ≡ []) ↔ GoodValue v
  unfolding check_value GoodValue
  check_value-nil number (inl error) = ((λ e. absurd (ground (arith, e))), (λ g. absurd g))
  check_value-nil number (inr value) = check_object-nil number (as_object value)

  -- Every line that is not blank is a valid record.
  unfoldable pub GoodLines : List String → Type 0
  GoodLines [] = Unit
  GoodLines (line ∷ rest) = ((is_blank line ≡ true) ⊎ GoodValue (h.parse line)) × GoodLines rest

  not_blank :
      (line : String)
      → ((is_blank line ≡ true) ⊎ GoodValue (h.parse line))
      → is_blank line ≡ false
      → GoodValue (h.parse line)
  not_blank line (inl blank) full = absurd (ground (arith, blank, full))
  not_blank line (inr v) full = v

  check_lines-nil : (number : ℕ) (ls : List String) → (check_lines h number ls ≡ []) ↔ GoodLines ls
  unfolding check_lines GoodLines
  check_lines-nil number [] = ((λ e. tt), (λ g. refl))
  check_lines-nil number (line ∷ rest) =
      let value = check_value-nil number (h.parse line) in
      let later = check_lines-nil (number + 1) rest in
      let both =
        both-nil (check_value h number (h.parse line)) (check_lines h (number + 1) rest) value
          later in
      (
        (λ e. elim (Bool-cases (is_blank line)) [
          | inl blank ↦ (inl blank, later.0 (ground (arith, e, blank)))
          | inr full ↦ let (v, g) = both.0 (ground (arith, e, full)) in (inr v, g)
        ]),
        (λ (v, g). elim (Bool-cases (is_blank line)) [
          | inl blank ↦ ground (arith, blank, later.1 g)
          | inr full ↦ ground (arith, full, both.1 (not_blank line v full, g))
        ]),
      )

-- A dataset file that can be read, and each line of which is blank or a valid record.
unfoldable pub GoodFileOf : Host → DatasetFile → Type 0
GoodFileOf h (contents text) = GoodLines h (lines text)
GoodFileOf h not_found = ⊥
GoodFileOf h (unreadable e) = ⊥

is_ok_iff : (r : DatasetReport) → (is_ok r ≡ true) ↔ (r.issues ≡ [])
unfolding is_ok
is_ok_iff r = ((λ e. ground (arith, e)), (λ e. ground (arith, e)))

exit_code_iff : (r : DatasetReport) → (exit_code (report r) ≡ 0) ↔ (r.issues ≡ [])
unfolding exit_code
exit_code_iff r =
    ((λ e. (is_ok_iff r).0 (ground (arith, e))), (λ e. ground (arith, (is_ok_iff r).1 e)))

exit_code-GoodFileOf :
    (h : Host) (f : DatasetFile) → (exit_code (validate_dataset_file h f) ≡ 0) ↔ GoodFileOf h f
unfolding exit_code validate_dataset_file validate_dataset_text GoodFileOf
exit_code-GoodFileOf h not_found = ((λ e. absurd (ground (arith, e))), (λ g. absurd g))
exit_code-GoodFileOf h (unreadable e) = ((λ q. absurd (ground (arith, q))), (λ g. absurd g))
exit_code-GoodFileOf h (contents text) =
    let clean = exit_code_iff (validate_dataset_text h text) in
    let good = check_lines-nil h 1 (lines text) in
    ((λ e. good.0 (clean.0 e)), (λ g. clean.1 (good.1 g)))

-- The validator exits with success exactly when it is given one argument that names a file that can be
-- read, each line of which is blank or a record: an object with three messages in the expected roles,
-- each with some content, whose answer is grounded and has none of the markers and no secret.
pub main_success_iff :
    (h : Host) (read : String → DatasetFile) (path : String)
    → (main h read (path ∷ []) ≡ 0) ↔ GoodFileOf h (read path)
unfolding main
main_success_iff h read path = exit_code-GoodFileOf h (read path)
