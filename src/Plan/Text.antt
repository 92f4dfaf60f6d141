-- ===== src/Plan/Text.antt =====
-- The test for a blank field, `str::trim`, and for a leading `_`, of the standard library, as
-- nauti-fabric/src/plan.rs uses them.
use Prim.Native.Char.{code}
use Prim.Native.String.{[], ◌∷◌}
use nauti_virtualizer.Prelude.{ℕ, String, Bool, true, false, ◌&&◌, ◌||◌, ◌==◌, leb}

-- `char::is_whitespace`
unfoldable pub is_whitespace : ℕ → Bool
is_whitespace c =
    (leb 9 c && leb c 13)
    || c == 0x20
    || c == 0x85
    || c == 0xa0
    || c == 0x1680
    || (leb 0x2000 c && leb c 0x200a)
    || c == 0x2028
    || c == 0x2029
    || c == 0x202f
    || c == 0x205f
    || c == 0x3000

-- `s.trim().is_empty()`
unfoldable pub is_blank : String → Bool
unfolding is_whitespace
is_blank [] = true
is_blank (c ∷ s) = is_whitespace (code c) && is_blank s

-- `s.starts_with('_')`
unfoldable pub starts_with_underscore : String → Bool
starts_with_underscore [] = false
starts_with_underscore (c ∷ s) = code c == 0x5f
