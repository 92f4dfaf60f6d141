-- ===== src/Lemonade.antt =====
-- The Lemonade adapter of nauti-fabric/src/adapters.rs. The `lemonade` command, the exchange with the
-- health endpoint, the JSON parser, the AMD devices that GPU discovery lists, and what the standard
-- library makes of letters and floats are the parameter `Machine`.
use Prim.Native.String.{◌++◌ as cat}
use text.Mathlib.Text.{starts_with}
use nauti_virtualizer.Prelude.{
  ℕ, zero, suc, String, Bool, true, false, not, ◌&&◌, ◌||◌, ◌==◌, Option, none, some, List, [], ◌∷◌,
  ◌++◌, map, contains, length, str_eq, if◌then◌else◌,
}
use nauti_virtualizer.Dict.{Dict, get, insert}
use nauti_virtualizer.Resource.{Resource, Lease, Attachment, AdapterReport, Result, ok}
use nauti_virtualizer.Fabric.{Adapter}
use nauti_virtualizer.Adapters.{attachment, default_detach, note, or_else}
use nauti_virtualizer.Json.{Value, array, items, elements, at, as_str}
use nauti_virtualizer.Plan.Text.{is_blank}
use nauti_virtualizer.Plan.Head.{join}
use nauti_virtualizer.Vmm.Texts.{is_empty}
use nauti_virtualizer.Http.Text.{trim, split, contains_text, to_ascii_lowercase, split_whitespace}
use nauti_virtualizer.Http.Lines.{lines}
pub mod Promises

pub record LemonadeConfig : Type 0 where
  pub host : String
  pub port : ℕ
  pub api_key : Option String

abbrev pub default_config : LemonadeConfig
default_config = record { host = "127.0.0.1"; port = 13305; api_key = none }

pub record LemonadeModel (F : Type 0) : Type 0 where
  pub id : String
  pub backend : String
  pub downloaded : Bool
  pub size_gb : Option F

pub record LemonadeLoaded : Type 0 where
  pub id : String
  pub recipe : String
  pub device : String
  pub status : String

pub record LemonadeReport (F : Type 0) : Type 0 where
  pub reachable : Bool
  pub version : Option String
  pub models : List (LemonadeModel F)
  pub amd_gpus : List String
  pub loaded : List LemonadeLoaded
  pub backends : List String

pub record Machine (F : Type 0) : Type 0 where
  -- the arguments of `lemonade`, and its output if it succeeds
  pub command : List String → Option String
  -- the body of the health endpoint's answer, for the host, the port and the key
  pub health : String → ℕ → Option String → Option (Value F)
  pub parse : String → Option (Value F)
  pub parse_f64 : String → Option F
  pub amd_gpus : List String
  pub to_lowercase : String → String
  pub decimal : ℕ → String

unfoldable pub or_text : String → Option String → String
or_text d none = d
or_text d (some s) = s

unfoldable pub nth : ℕ → List String → Option String
nth n [] = none
nth zero (x ∷ xs) = some x
nth (suc n) (x ∷ xs) = nth n xs

unfoldable pub skip : ℕ → List String → List String
skip zero xs = xs
skip (suc n) [] = []
skip (suc n) (x ∷ xs) = skip n xs

unfoldable pub bool_text : Bool → String
bool_text true = "true"
bool_text false = "false"

module _ {F : Type 0} (m : Machine F) where
  unfoldable pub loaded_item : Value F → LemonadeLoaded
  loaded_item item = record {
    id = or_text "" (as_str (at item "model_name"));
    recipe = or_text "" (as_str (at item "recipe"));
    device = or_text "" (as_str (at item "device"));
    status = or_text "" (as_str (at item "status"));
  }

  unfoldable pub parsed_status : Option (Value F) → Option String × List LemonadeLoaded
  parsed_status none = (none, [])
  parsed_status (some value) =
      (as_str (at value "version"), map loaded_item (elements (at value "models")))

  unfoldable pub parse_status_json : String → Option String × List LemonadeLoaded
  parse_status_json text = parsed_status (m.parse text)

  unfoldable pub is_backend : String → Bool
  is_backend b =
      str_eq b "vulkan" || str_eq b "rocm" || str_eq b "cpu" || str_eq b "cuda" || str_eq b "metal"

  -- The loop over the pairs of neighbouring segments.
  unfoldable pub after_llamacpp : List String → Option String
  after_llamacpp [] = none
  after_llamacpp (a ∷ []) = none
  after_llamacpp (a ∷ b ∷ rest) =
      let later = after_llamacpp (b ∷ rest) in
      if str_eq a "llamacpp" && is_backend (m.to_lowercase b)
      then some (m.to_lowercase b)
      else later

  unfoldable pub first_element : List (Value F) → Option (Value F)
  first_element [] = none
  first_element (v ∷ vs) = some v

  -- `entry.get("launch_command")?.get(0)?.as_str()?`
  unfoldable pub command_text : Option (Value F) → Option String
  command_text none = none
  command_text (some v) = as_str v

  unfoldable pub backend_of_text : Option String → Option String
  backend_of_text none = none
  backend_of_text (some cmd) = after_llamacpp (split (λ c. c == 47 || c == 92) cmd)

  unfoldable pub backend_from_launch_command : Value F → Option String
  backend_from_launch_command entry =
      backend_of_text (command_text (first_element (elements (at entry "launch_command"))))

  unfoldable pub push_new : Option String → List String → List String
  push_new none out = out
  push_new (some b) out = if contains out b then out else out ++ b ∷ []

  -- The loop over the loaded models.
  unfoldable pub collect_backends : List (Value F) → List String → List String
  collect_backends [] out = out
  collect_backends (item ∷ rest) out =
      collect_backends rest (push_new (backend_from_launch_command item) out)

  unfoldable pub backends_from_health : Value F → List String
  backends_from_health health = collect_backends (elements (at health "all_models_loaded")) []

  unfoldable pub key_args : Option String → List String
  key_args none = []
  key_args (some key) = "--api-key" ∷ key ∷ []

  -- `run_lemonade`
  unfoldable pub run_lemonade : String → String → Option String → Option String
  run_lemonade args base api_key =
      let parts = split (λ c. c == 58) base in
      m.command (
        "--host"
          ∷ or_text "127.0.0.1" (nth 0 parts)
          ∷ "--port"
          ∷ or_text "13305" (nth 1 parts)
          ∷ key_args api_key
        ++ split (λ c. c == 32) args)

  unfoldable pub version_line : List String → Option String
  version_line [] = none
  version_line (l ∷ ls) =
      let later = version_line ls in
      if starts_with (trim l) "Version" then nth 1 (split_whitespace l) else later

  unfoldable pub parsed_size : Option String → Option F
  parsed_size none = none
  parsed_size (some s) = m.parse_f64 s

  unfoldable pub model_of : List String → LemonadeModel F
  model_of parts = record {
    id = trim (or_text "" (nth 0 parts));
    backend = trim (or_text "unknown" (nth 3 parts));
    downloaded = str_eq (to_ascii_lowercase (or_text "no" (nth 1 parts))) "yes";
    size_gb = parsed_size (nth 2 parts);
  }

  -- The loop over the rows of `list --downloaded`.
  unfoldable pub models_of : List String → List (LemonadeModel F)
  models_of [] = []
  models_of (line ∷ rest) =
      let later = models_of rest in
      let model = model_of (split_whitespace line) in
      if is_blank line || starts_with (trim line) "---"
      then later
      else if not (is_empty model.id) && not (str_eq model.id "Model")
      then model ∷ later
      else later

  unfoldable pub base_of : LemonadeConfig → String
  base_of c = cat c.host (cat ":" (m.decimal c.port))

  -- `lemonade status --json`
  unfoldable pub with_status_json : Option String → LemonadeReport F → LemonadeReport F
  with_status_json none r = r
  with_status_json (some out) r =
      let (json_version, loaded) = parse_status_json out in
      record r { loaded = loaded; version = or_else json_version r.version }

  -- `lemonade status`
  unfoldable pub with_status : Option String → LemonadeReport F → LemonadeReport F
  with_status none r = r
  with_status (some out) r = record r {
    reachable =
        contains_text (m.to_lowercase out) "running"
        || contains_text (m.to_lowercase out) "server is running";
    version = or_else r.version (version_line (lines out));
  }

  -- `lemonade list --downloaded`
  unfoldable pub with_models : Option String → LemonadeReport F → LemonadeReport F
  with_models none r = r
  with_models (some out) r = record r { models = models_of (skip 2 (lines out)) }

  unfoldable pub with_backends : Option (Value F) → LemonadeReport F → LemonadeReport F
  with_backends none r = r
  with_backends (some health) r = record r { backends = backends_from_health health }

  -- `LemonadeAdapter::status`
  unfoldable pub status : LemonadeConfig → LemonadeReport F
  status c = with_backends (m.health c.host c.port c.api_key) (
      with_models (run_lemonade "list --downloaded" (base_of c) c.api_key) (
        with_status (run_lemonade "status" (base_of c) c.api_key) (
          with_status_json (run_lemonade "status --json" (base_of c) c.api_key) (record {
            reachable = false;
            version = none;
            models = [];
            amd_gpus = m.amd_gpus;
            loaded = [];
            backends = [];
          }))))

  unfoldable pub loaded_ids : List LemonadeLoaded → List String
  loaded_ids [] = []
  loaded_ids (l ∷ ls) = l.id ∷ loaded_ids ls

  unfoldable pub model_ids : List (LemonadeModel F) → List String
  model_ids [] = []
  model_ids (l ∷ ls) = l.id ∷ model_ids ls

  -- A joined list under a key, if the list is not empty.
  unfoldable pub note_list : String → String → List String → Dict String → Dict String
  note_list key sep [] detail = detail
  note_list key sep (x ∷ xs) detail = insert key (join sep (x ∷ xs)) detail

  unfoldable pub loaded_text : List String → String
  loaded_text [] = "none-loaded"
  loaded_text (x ∷ xs) = join "," (x ∷ xs)

  unfoldable pub lemonade_detail : LemonadeReport F → Dict String
  lemonade_detail r = note_list "lemonade.amd_gpus" "; " r.amd_gpus (
      note_list "lemonade.backend" "," r.backends (
        note_list "lemonade.downloaded" "," (model_ids r.models) (
          insert "lemonade.models" (loaded_text (loaded_ids r.loaded)) (
            note "lemonade.version" r.version
              (("lemonade.reachable", bool_text r.reachable) ∷ [])))))

  unfoldable pub attach_lemonade : LemonadeConfig → Resource → Lease → Result Attachment
  attach_lemonade c r lease = ok (
      attachment r lease "lemonade" (
        insert "attachment.scope" "lemonade-serving" (
          insert "lemonade.endpoint" (or_text (base_of c) (get "lemonade.endpoint" r.attributes))
            (lemonade_detail (status c)))))

  unfoldable pub lemonade_report : LemonadeConfig → AdapterReport
  lemonade_report c = record {
    name = "lemonade";
    scope = "lemonade-serving";
    healthy = (status c).reachable;
    detail = insert "lemonade.endpoint" (base_of c) (lemonade_detail (status c));
  }

-- The machine is read anew at each call.
unfoldable pub lemonade : {F : Type 0} → LemonadeConfig → Adapter (Machine F)
lemonade c = record {
  name = "lemonade";
  attach = λ r lease m. (attach_lemonade m c r lease, m);
  detach = default_detach;
  capability_report = λ m. lemonade_report m c;
}
