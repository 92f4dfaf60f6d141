-- ===== src/Lemonade/Promises.antt =====
-- What the Lemonade adapter of nauti-fabric/src/adapters.rs reports.
use nauti_virtualizer.Prelude.{
  String, true, false, Option, none, some, List, [], ◌∷◌, ◌++◌, inl, inr, In, ◌≡◌, refl, sym, ap,
  ◌∙◌, subst, contains, str_eq, eq_iff, eq_refl, Bool-cases, arith,
}
use nauti_virtualizer.Json.{Value, elements, at}
use nauti_virtualizer.Lemonade.{
  Machine, LemonadeConfig, command_text, first_element, LemonadeReport, is_backend, after_llamacpp,
  backend_of_text, backend_from_launch_command, push_new, collect_backends, backends_from_health,
  run_lemonade, base_of, with_status_json, with_status, with_models, with_backends, status,
  lemonade_report,
}

-- No text stands twice.
pub Distinct : List String → Type 0
Distinct [] = Unit
Distinct (x ∷ xs) = (contains xs x ≡ false) × Distinct xs

contains-snoc :
    (xs : List String) (b x : String)
    → contains xs x ≡ false
    → str_eq b x ≡ false
    → contains (xs ++ b ∷ []) x ≡ false
contains-snoc [] b x h e = ground (arith, e)
contains-snoc (y ∷ xs) b x h e = ground (arith, h, e, contains-snoc xs b x)

Distinct-snoc :
    (xs : List String) (b : String) → Distinct xs → contains xs b ≡ false → Distinct (xs ++ b ∷ [])
unfolding Distinct
Distinct-snoc [] b d h = (refl, tt)
Distinct-snoc (x ∷ xs) b (fresh, d) h =
    ground (arith, fresh, d, h, eq_iff b x, eq_iff x b, contains-snoc xs b x, Distinct-snoc xs b)

module _ {F : Type 0} (m : Machine F) where
  after_llamacpp-is_backend :
      (segments : List String) (b : String)
      → after_llamacpp m segments ≡ some b
      → is_backend m b ≡ true
  unfolding after_llamacpp
  after_llamacpp-is_backend [] b h = ground (arith, h)
  after_llamacpp-is_backend (x ∷ []) b h = ground (arith, h)
  after_llamacpp-is_backend (x ∷ y ∷ rest) b h = ground (
    arith,
    h,
    after_llamacpp-is_backend (y ∷ rest) b,
    ap (is_backend m) {x = m.to_lowercase y} {y = b},
  )

  -- Each text is one of the five compute backends.
  pub AllBackends : List String → Type 0
  AllBackends [] = Unit
  AllBackends (b ∷ bs) = (is_backend m b ≡ true) × AllBackends bs

  AllBackends-snoc :
      (bs : List String) (b : String)
      → AllBackends bs
      → is_backend m b ≡ true
      → AllBackends (bs ++ b ∷ [])
  unfolding AllBackends
  AllBackends-snoc [] b all h = (h, tt)
  AllBackends-snoc (x ∷ bs) b (first, all) h = (first, AllBackends-snoc bs b all h)

  backend_of_text-is_backend :
      (o : Option String) (b : String) → backend_of_text m o ≡ some b → is_backend m b ≡ true
  unfolding backend_of_text
  backend_of_text-is_backend none b h = ground (arith, h)
  backend_of_text-is_backend (some cmd) b h = after_llamacpp-is_backend _ b h

  command-is_backend :
      (v : Value F) (b : String) → backend_from_launch_command m v ≡ some b → is_backend m b ≡ true
  unfolding backend_from_launch_command
  command-is_backend v b h =
      backend_of_text-is_backend
        (command_text m (first_element m (elements (at v "launch_command")))) b h

  -- A list of backends, none of them twice.
  Listed : List String → Type 0
  Listed out = Distinct out × AllBackends out

  push_new-Listed :
      (o : Option String) (out : List String)
      → ((b : String) → o ≡ some b → is_backend m b ≡ true)
      → Listed out
      → Listed (push_new m o out)
  unfolding push_new Listed
  push_new-Listed none out known l = l
  push_new-Listed (some b) out known (d, all) = elim (Bool-cases (contains out b)) [
    | inl old ↦ rw old (d, all)
    | inr new ↦ rw new (Distinct-snoc out b d new, AllBackends-snoc out b all (known b refl))
  ]

  collect_backends-Listed :
      (vs : List (Value F)) (out : List String) → Listed out → Listed (collect_backends m vs out)
  unfolding collect_backends
  collect_backends-Listed [] out l = l
  collect_backends-Listed (v ∷ vs) out l =
      collect_backends-Listed vs (push_new m (backend_from_launch_command m v) out)
        (push_new-Listed (backend_from_launch_command m v) out (command-is_backend v) l)

  snoc_last : (xs : List String) (b : String) → contains (xs ++ b ∷ []) b ≡ true
  snoc_last [] b = ground (arith, eq_refl b)
  snoc_last (x ∷ xs) b = ground (arith, snoc_last xs b)

  snoc_keeps :
      (xs : List String) (b x : String) → contains xs x ≡ true → contains (xs ++ b ∷ []) x ≡ true
  snoc_keeps [] b x h = ground (arith, h)
  snoc_keeps (y ∷ xs) b x h = ground (arith, h, snoc_keeps xs b x)

  push_new-keeps :
      (o : Option String) (out : List String) (x : String)
      → contains out x ≡ true
      → contains (push_new m o out) x ≡ true
  unfolding push_new
  push_new-keeps none out x h = h
  push_new-keeps (some b) out x h = ground (arith, h, snoc_keeps out b x)

  push_new-has : (b : String) (out : List String) → contains (push_new m (some b) out) b ≡ true
  unfolding push_new
  push_new-has b out = ground (arith, snoc_last out b)

  collect_backends-keeps :
      (vs : List (Value F)) (out : List String) (x : String)
      → contains out x ≡ true
      → contains (collect_backends m vs out) x ≡ true
  unfolding collect_backends
  collect_backends-keeps [] out x h = h
  collect_backends-keeps (v ∷ vs) out x h =
      collect_backends-keeps vs (push_new m (backend_from_launch_command m v) out) x
        (push_new-keeps (backend_from_launch_command m v) out x h)

  collect_backends-has :
      (vs : List (Value F)) (out : List String) (v : Value F) (b : String)
      → In v vs
      → backend_from_launch_command m v ≡ some b
      → contains (collect_backends m vs out) b ≡ true
  unfolding collect_backends
  collect_backends-has [] out v b at h = absurd at
  collect_backends-has (w ∷ vs) out v b (inl same) h =
      collect_backends-keeps vs (push_new m (backend_from_launch_command m w) out) b (
        subst (λ o. contains (push_new m o out) b ≡ true)
          (sym (ap (backend_from_launch_command m) same ∙ h)) (push_new-has b out))
  collect_backends-has (w ∷ vs) out v b (inr at) h =
      collect_backends-has vs (push_new m (backend_from_launch_command m w) out) v b at h

  -- The backends of a health answer are compute backends, none stands twice, and the backend of each
  -- loaded model whose launch command names one is among them.
  pub backends_from_health_lem :
      (health item : Value F) (b : String)
      → In item (elements (at health "all_models_loaded"))
      → backend_from_launch_command m item ≡ some b
      → Distinct (backends_from_health m health)
        × AllBackends (backends_from_health m health)
        × (contains (backends_from_health m health) b ≡ true)
  unfolding backends_from_health Listed Distinct AllBackends
  backends_from_health_lem health item b listed names =
      let (d, all) =
        collect_backends-Listed (elements (at health "all_models_loaded")) [] (tt, tt) in
      (
        d,
        all,
        collect_backends-has (elements (at health "all_models_loaded")) [] item b listed names,
      )

  with_status-reachable :
      (o : Option String) (r : LemonadeReport F)
      → r.reachable ≡ false
      → (with_status m o r).reachable ≡ true
      → (out : String) × (o ≡ some out)
  unfolding with_status
  with_status-reachable none r e h = absurd (ground (arith, e, h))
  with_status-reachable (some out) r e h = (out, refl)

  with_backends_reachable :
      (o : Option (Value F)) (r : LemonadeReport F) → (with_backends m o r).reachable ≡ r.reachable
  unfolding with_backends
  with_backends_reachable none r = refl
  with_backends_reachable (some v) r = refl

  with_models_reachable :
      (o : Option String) (r : LemonadeReport F) → (with_models m o r).reachable ≡ r.reachable
  unfolding with_models
  with_models_reachable none r = refl
  with_models_reachable (some out) r = refl

  with_status_json_reachable :
      (o : Option String) (r : LemonadeReport F) → (with_status_json m o r).reachable ≡ r.reachable
  unfolding with_status_json
  with_status_json_reachable none r = refl
  with_status_json_reachable (some out) r = refl

  -- The adapter reports itself healthy only when the `status` command succeeded.
  pub lemonade_report-healthy :
      (c : LemonadeConfig)
      → (lemonade_report m c).healthy ≡ true
      → (out : String) × (run_lemonade m "status" (base_of m c) c.api_key ≡ some out)
  unfolding lemonade_report status
  lemonade_report-healthy c h =
      with_status-reachable (run_lemonade m "status" (base_of m c) c.api_key) _
        (with_status_json_reachable (run_lemonade m "status --json" (base_of m c) c.api_key) _)
        (sym (with_models_reachable (run_lemonade m "list --downloaded" (base_of m c) c.api_key) _)
          ∙ sym (with_backends_reachable (m.health c.host c.port c.api_key) _)
          ∙ h)
