-- ===== src/Hardware/Sysfs.antt =====
-- Reading sysfs in nauti-fabric/src/hwinfo.rs. What the files, directories and links answer, and what
-- the `ip` command prints, is the record `Sys`; paths are texts under its root.
use Prim.Native.Char.{code}
use Prim.Native.String.{◌++◌ as cat}
use nauti_virtualizer.Prelude.{
  ℕ, zero, suc, String, ◌*◌, ◌%◌, ◌^◌, ◌==◌, Bool, Option, none, some, List, [], ◌∷◌, ◌++◌, str_eq,
  if◌then◌else◌,
}
use nauti_virtualizer.Dict.{Dict, get, insert}
use nauti_virtualizer.Http.Text.{trim, split_whitespace, unsigned}
use nauti_virtualizer.Http.Lines.{lines}
use nauti_virtualizer.Vmm.Texts.{is_empty}

pub record Sys : Type 0 where
  pub root : String
  pub read_to_string : String → Option String
  -- the names in a directory in ascending order, none if it cannot be read
  pub names : String → List String
  -- the last name of a link's target, and of a canonical path
  pub link_name : String → Option String
  pub canonical_name : String → Option String
  pub exists : String → Bool
  pub ip_addr : Option String
  pub decimal : ℕ → String
  -- `parse::<f64>().map(|g| (g * 1e9) as u64)`
  pub giga : String → Option ℕ

abbrev pub u64_bound : ℕ
u64_bound = 2 ^ 64

unfoldable pub join : String → String → String
join dir name = cat dir (cat "/" name)

unfoldable pub trimmed : Option String → Option String
trimmed none = none
trimmed (some s) = some (trim s)

unfoldable pub or_text : Option String → String
or_text none = ""
or_text (some s) = s

unfoldable pub nth : ℕ → List String → Option String
nth n [] = none
nth zero (x ∷ xs) = some x
nth (suc n) (x ∷ xs) = nth n xs

-- `parse().unwrap_or(0)` of a `u64`
unfoldable pub or_zero : Option ℕ → ℕ
or_zero none = 0
or_zero (some n) = n

unfoldable pub with_affinity : Option String → Option String
with_affinity none = none
with_affinity (some n) = if str_eq n "-1" then none else some n

-- What a line of four words or more says of the two sizes.
unfoldable pub meminfo_line : List String → ℕ × ℕ → ℕ × ℕ
meminfo_line (a ∷ b ∷ key ∷ value ∷ rest) (total, free) =
    let bytes = or_zero (unsigned 10 u64_bound value) * 1024 % u64_bound in
    if str_eq key "MemTotal:"
    then (bytes, free)
    else if str_eq key "MemFree:"
    then (total, bytes)
    else (total, free)
meminfo_line _ sizes = sizes

unfoldable pub meminfo_lines : List String → ℕ × ℕ → ℕ × ℕ
meminfo_lines [] sizes = sizes
meminfo_lines (l ∷ ls) sizes = meminfo_lines ls (meminfo_line (split_whitespace l) sizes)

module _ (sys : Sys) where
  unfoldable pub read : String → Option String
  read path = trimmed (sys.read_to_string path)

  unfoldable pub pci_numa : String → Option String
  pci_numa device_dir = with_affinity (read (join device_dir "numa_node"))

  -- Total and free bytes; the products wrap around in a release build.
  unfoldable pub node_meminfo : String → ℕ × ℕ
  node_meminfo node_dir = meminfo_lines (lines (or_text (read (join node_dir "meminfo")))) (0, 0)

-- `text.trim_end_matches(':')`
unfoldable pub trim_colons : String → String
trim_colons String.[] = ""
trim_colons (String.◌∷◌ c s) =
    let rest = trim_colons s in
    if is_empty rest then (if code c == 58 then "" else String.◌∷◌ c "") else String.◌∷◌ c rest

-- The word after the first `inet`.
unfoldable pub after_inet : List String → Option String
after_inet [] = none
after_inet (w ∷ ws) = let later = after_inet ws in if str_eq w "inet" then nth 0 ws else later

unfoldable pub or_none : Option (List String) → List String
or_none none = []
or_none (some xs) = xs

unfoldable pub add_address : Option String → Option String → Dict (List String) → Dict (List String)
add_address (some iface) (some addr) out =
    let key = trim_colons iface in insert key (or_none (get key out) ++ addr ∷ []) out
add_address _ _ out = out

unfoldable pub ip_lines : List String → Dict (List String) → Dict (List String)
ip_lines [] out = out
ip_lines (l ∷ ls) out =
    let parts = split_whitespace l in ip_lines ls (add_address (nth 1 parts) (after_inet parts) out)

unfoldable pub ipv4_of : Option String → Dict (List String)
ipv4_of none = []
ipv4_of (some output) = ip_lines (lines output) []

unfoldable pub ipv4_by_interface : Sys → Dict (List String)
ipv4_by_interface sys = ipv4_of sys.ip_addr
