-- ===== src/Http/Url.antt =====
-- `parse_head_url` of nauti-fabric/src/plan.rs.
use Prim.Native.String.{◌++◌ as cat}
use nauti_virtualizer.Prelude.{ℕ, String, ◌^◌, Option, none, some, if◌then◌else◌}
use nauti_virtualizer.Plan.Planner.{Result, ok, err, bad_head_url}
use nauti_virtualizer.Vmm.Texts.{is_empty}
use nauti_virtualizer.Http.Text.{trim, up_to, rsplit_once, strip_prefix, unsigned, only_brackets}

abbrev pub default_head_port : ℕ
default_head_port = 8080

abbrev pub u16_bound : ℕ
u16_bound = 2 ^ 16

-- `{:?}` of a text
module _ (quoted : String → String) where
  unfoldable pub bad : String → Result (String × ℕ)
  bad detail = err (bad_head_url detail)

  unfoldable pub checked_host : String → String → ℕ → Result (String × ℕ)
  checked_host base host port =
      if only_brackets host then bad (cat (quoted base) " has an empty host") else ok (host, port)

  unfoldable pub with_port : String → String → String → Option ℕ → Result (String × ℕ)
  with_port base host text none =
      bad (cat (quoted base) (cat " has a non-numeric port " (quoted text)))
  with_port base host text (some port) = checked_host base host port

  unfoldable pub split_port : String → String → Option (String × String) → Result (String × ℕ)
  split_port base authority none = checked_host base authority default_head_port
  split_port base authority (some (host, port)) =
      with_port base host port (unsigned 10 u16_bound port)

  unfoldable pub parse_authority : String → String → Result (String × ℕ)
  parse_authority base authority =
      if is_empty authority
      then bad (cat (quoted base) " has no host")
      else split_port base authority (rsplit_once 58 authority)

  unfoldable pub after_scheme : String → Option String → Result (String × ℕ)
  after_scheme base none = bad (cat (quoted base) " is not an http:// authority (no TLS here)")
  after_scheme base (some rest) = parse_authority base (trim (up_to 47 rest))

  unfoldable pub parse_head_url : String → Result (String × ℕ)
  parse_head_url base = after_scheme base (strip_prefix "http://" base)
