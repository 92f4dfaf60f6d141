-- ===== src/Dataset/Answer.antt =====
-- What it takes that tools/dataset-validate reports no issue on the messages and the answer of a record.
use nauti_virtualizer.Prelude.{
  ℕ, String, Bool, true, false, ◌+◌, Option, none, some, List, [], ◌∷◌, ◌++◌, ◌⊎◌, inl, inr, ◌≡◌,
  ◌↔◌, refl, arith, str_eq, Bool-cases,
}
use nauti_virtualizer.Json.{Value, at, as_str}
use nauti_virtualizer.Vmm.Texts.{is_empty}
use nauti_virtualizer.Http.Text.{contains_text}
use nauti_virtualizer.Dataset.{
  Host, forbidden_markers, forbidden_host_markers, is_text, no_content, has_parent_dir,
  is_none_left, is_disjoint, when, check_message, check_messages, check_tokens, check_file,
  check_grounding, check_markers, check_host_markers, check_answer,
}

append-nil : {A : Type 0} (xs ys : List A) → (xs ++ ys ≡ []) ↔ ((xs ≡ []) × (ys ≡ []))
append-nil [] ys = ((λ e. (refl, e)), (λ h. h.1))
append-nil (x ∷ xs) ys = ((λ e. absurd (ground (arith, e))), (λ h. absurd (ground (arith, h))))

-- Two checks report nothing together exactly when each of them does.
pub both-nil :
    {A P Q : Type 0} (xs ys : List A)
    → ((xs ≡ []) ↔ P)
    → ((ys ≡ []) ↔ Q)
    → (xs ++ ys ≡ []) ↔ (P × Q)
both-nil xs ys p q = (
  (λ e. let (a, b) = (append-nil xs ys).0 e in (p.0 a, q.0 b)),
  (λ (a, b). (append-nil xs ys).1 (p.1 a, q.1 b)),
)

module _ (h : Host) where
  when-nil : (b : Bool) (number : ℕ) (text : String) → (when h b number text ≡ []) ↔ (b ≡ false)
  unfolding when
  when-nil true number text = ((λ e. absurd (ground (arith, e))), (λ e. absurd (ground (arith, e))))
  when-nil false number text = ((λ e. refl), (λ e. refl))

  -- The messages have these roles, and texts that are not empty.
  unfoldable pub GoodMessages : List (Value h.F) → List String → Type 0
  GoodMessages (m ∷ ms) (r ∷ rs) =
      (is_text r (as_str (at m "role")) ≡ true)
      × (no_content (as_str (at m "content")) ≡ false)
      × GoodMessages ms rs
  GoodMessages _ _ = Unit

  check_message-nil :
      (number offset : ℕ) (m : Value h.F) (r : String)
      → (check_message h number offset m r ≡ []) ↔ (
          (is_text r (as_str (at m "role")) ≡ true)
          × (no_content (as_str (at m "content")) ≡ false))
  unfolding check_message when
  check_message-nil number offset m r =
      ((λ e. ground (arith, e)), (λ (role, content). ground (arith, role, content)))

  pub check_messages-nil :
      (number offset : ℕ) (ms : List (Value h.F)) (rs : List String)
      → (check_messages h number offset ms rs ≡ []) ↔ GoodMessages ms rs
  unfolding check_messages GoodMessages
  check_messages-nil number offset [] rs = ((λ e. tt), (λ g. refl))
  check_messages-nil number offset (m ∷ ms) [] = ((λ e. tt), (λ g. refl))
  check_messages-nil number offset (m ∷ ms) (r ∷ rs) =
      let both =
        both-nil (check_message h number offset m r) (check_messages h number (offset + 1) ms rs)
          (check_message-nil number offset m r) (check_messages-nil number (offset + 1) ms rs) in
      (
        (λ e. let ((role, content), g) = both.0 e in (role, content, g)),
        (λ (role, content, g). both.1 ((role, content), g)),
      )

  -- The answer holds none of the markers.
  unfoldable pub NoMarker : (String → Bool) → List String → Type 0
  NoMarker p [] = Unit
  NoMarker p (m ∷ ms) = (p m ≡ false) × NoMarker p ms

  -- The file can be read, and shares a token with the answer.
  unfoldable pub SharesToken : String → String ⊎ String → Type 0
  SharesToken answer (inl error) = ⊥
  SharesToken answer (inr text) =
      (is_none_left (h.identifier_tokens text) ≡ false)
      × (is_none_left (h.identifier_tokens answer) ≡ false)
      × (is_disjoint (h.identifier_tokens text) (h.identifier_tokens answer) ≡ false)

  check_tokens-nil :
      (number : ℕ) (path answer : String) (o : String ⊎ String)
      → (check_tokens h number path answer o ≡ []) ↔ SharesToken answer o
  unfolding check_tokens when SharesToken
  check_tokens-nil number path answer (inl error) =
      ((λ e. absurd (ground (arith, e))), (λ g. absurd g))
  check_tokens-nil number path answer (inr text) =
      ((λ e. ground (arith, e)), (λ (a, b, c). ground (arith, a, b, c)))

  -- A path that exists and, if it is a file, shares a token with the answer.
  unfoldable pub GoodFile : String → String → Type 0
  GoodFile path answer =
      ((h.path path).exists ≡ true)
      × (((h.path path).is_file ≡ false) ⊎ SharesToken answer (h.path path).contents)

  check_file-nil :
      (number : ℕ) (path answer : String)
      → (check_file h number path answer ≡ []) ↔ GoodFile path answer
  unfolding check_file GoodFile
  check_file-nil number path answer =
      let tokens = check_tokens-nil number path answer (h.path path).contents in
      (
        (λ e. elim (Bool-cases (h.path path).is_file) [
          | inl file ↦ (ground (arith, e), inr (tokens.0 (ground (arith, e, file))))
          | inr other ↦ (ground (arith, e), inl other)
        ]),
        (λ (there, g). elim g [
          | inl other ↦ ground (arith, there, other)
          | inr shares ↦ ground (arith, there, tokens.1 shares)
        ]),
      )

  -- A grounding that passes: the grandfathered one, or a path inside the repository to a good file.
  unfoldable pub Grounded : Option String → String → Type 0
  Grounded none answer = ⊥
  Grounded (some path) answer =
      (str_eq path "legacy" ≡ true)
      ⊎ ((is_empty path ≡ false) × (has_parent_dir path ≡ false) × GoodFile path answer)

  check_grounding-nil :
      (number : ℕ) (o : Option String) (answer : String)
      → (check_grounding h number o answer ≡ []) ↔ Grounded o answer
  unfolding check_grounding Grounded
  check_grounding-nil number none answer = ((λ e. absurd (ground (arith, e))), (λ g. absurd g))
  check_grounding-nil number (some path) answer =
      let file = check_file-nil number path answer in
      (
        (λ e. elim (Bool-cases (str_eq path "legacy")) [
          | inl legacy ↦ inl legacy
          | inr other ↦ inr (
            ground (arith, e, other),
            ground (arith, e, other),
            file.0 (ground (arith, e, other)),
          )
        ]),
        (λ g. elim g [
          | inl legacy ↦ ground (arith, legacy)
          | inr (text, inside, good) ↦ ground (arith, text, inside, file.1 good)
        ]),
      )

  check_markers-nil :
      (number : ℕ) (ms : List String) (answer : String)
      → (check_markers h number ms answer ≡ [])
        ↔ NoMarker (λ m. contains_text (h.to_lowercase answer) (h.to_lowercase m)) ms
  unfolding check_markers NoMarker
  check_markers-nil number [] answer = ((λ e. tt), (λ g. refl))
  check_markers-nil number (m ∷ ms) answer =
      both-nil (when h (contains_text (h.to_lowercase answer) (h.to_lowercase m)) number _)
        (check_markers h number ms answer)
        (when-nil (contains_text (h.to_lowercase answer) (h.to_lowercase m)) number _)
        (check_markers-nil number ms answer)

  check_host_markers-nil :
      (number : ℕ) (ms : List String) (answer : String)
      → (check_host_markers h number ms answer ≡ []) ↔ NoMarker (contains_text answer) ms
  unfolding check_host_markers NoMarker
  check_host_markers-nil number [] answer = ((λ e. tt), (λ g. refl))
  check_host_markers-nil number (m ∷ ms) answer =
      both-nil (when h (contains_text answer m) number _) (check_host_markers h number ms answer)
        (when-nil (contains_text answer m) number _) (check_host_markers-nil number ms answer)

  -- An answer that is grounded, and has neither a marker nor a secret.
  unfoldable pub GoodAnswer : Option String → String → Type 0
  GoodAnswer grounding answer =
      Grounded grounding answer
      × NoMarker (λ m. contains_text (h.to_lowercase answer) (h.to_lowercase m)) forbidden_markers
      × NoMarker (contains_text answer) forbidden_host_markers
      × (h.has_secret answer ≡ false)

  pub check_answer-nil :
      (number : ℕ) (grounding : Option String) (answer : String)
      → (check_answer h number grounding answer ≡ []) ↔ GoodAnswer grounding answer
  unfolding check_answer GoodAnswer
  check_answer-nil number grounding answer =
      let both =
        both-nil (check_grounding h number grounding answer) _
          (check_grounding-nil number grounding answer)
          (both-nil (check_markers h number forbidden_markers answer) _
            (check_markers-nil number forbidden_markers answer)
            (both-nil (check_host_markers h number forbidden_host_markers answer) _
              (check_host_markers-nil number forbidden_host_markers answer)
              (when-nil (h.has_secret answer) number _))) in
      (
        (λ e. let (g, (m, (k, s))) = both.0 e in (g, m, k, s)),
        (λ (g, m, k, s). both.1 (g, (m, (k, s)))),
      )
