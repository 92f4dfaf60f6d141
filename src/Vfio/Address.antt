-- ===== src/Vfio/Address.antt =====
-- PCI addresses and the texts of sysfs: `normalize_bdf` and `parse_hex` of
-- nauti-fabric/src/vmm/vfio.rs.
use Prim.Native.String.{◌++◌ as cat}
use nauti_virtualizer.Prelude.{
  ℕ, zero, suc, String, ◌/◌, ◌%◌, ◌^◌, ◌+◌, ltb, Option, none, some, if◌then◌else◌,
}
use nauti_virtualizer.Http.Utf8.{from_u32}
use nauti_virtualizer.Http.Text.{
  trim, split_once, rsplit_once, strip_prefix, contains_text, to_ascii_lowercase, unsigned,
}

abbrev pub u32_bound : ℕ
u32_bound = 2 ^ 32

unfoldable pub hex_digit : ℕ → String
hex_digit d = String.◌∷◌ (from_u32 (if ltb d 10 then 48 + d else 87 + d)) ""

-- The hexadecimal digits of a number, the last `n` at least: a `u32` has at most eight.
unfoldable pub hex_digits : ℕ → ℕ → String
hex_digits zero v = ""
hex_digits (suc n) v = cat (hex_digits n (v / 16)) (hex_digit (v % 16))

-- How many digits `{:04x}` prints for a `u32`.
unfoldable pub hex_width : ℕ → ℕ
hex_width v =
    if ltb v 65536
    then 4
    else if ltb v 1048576
    then 5
    else if ltb v 16777216
    then 6
    else if ltb v 268435456
    then 7
    else 8

-- `{:04x}`
unfoldable pub hex4 : ℕ → String
hex4 v = hex_digits (hex_width v) v

unfoldable pub unwrap_or_zero : Option ℕ → ℕ
unwrap_or_zero none = 0
unwrap_or_zero (some n) = n

unfoldable pub with_domain : String → Option (String × String) → String
with_domain raw none = cat "0000:" raw
with_domain raw (some (domain, rest)) =
    if contains_text rest ":"
    then cat (hex4 (unwrap_or_zero (unsigned 16 u32_bound domain))) (cat ":" rest)
    else cat "0000:" raw

unfoldable pub normalize_bdf : String → String
normalize_bdf raw =
    with_domain (to_ascii_lowercase (trim raw)) (split_once 58 (to_ascii_lowercase (trim raw)))

unfoldable pub or_whole : Option String → String → String
or_whole none s = s
or_whole (some rest) s = rest

unfoldable pub parse_hex : String → Option ℕ
parse_hex raw = unsigned 16 u32_bound (or_whole (strip_prefix "0x" (trim raw)) (trim raw))

unfoldable pub second_part : String → Option (String × String) → String
second_part s none = s
second_part s (some (a, b)) = b

-- `path.rsplit('/').next().and_then(|n| n.parse::<u32>().ok())`
unfoldable pub group_number : String → Option ℕ
group_number target = unsigned 10 u32_bound (second_part target (rsplit_once 47 target))
