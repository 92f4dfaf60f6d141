-- ===== src/Vmm/Texts.antt =====
-- `str::trim` and `str::split(',')` of the standard library, as
-- nauti-fabric/src/vmm/cloud_hypervisor.rs uses them.
use Prim.Native.Char.{code}
use Prim.Native.String.{[], ◌∷◌}
use nauti_virtualizer.Prelude.{String, Bool, true, false, ◌&&◌, ◌==◌, List, if◌then◌else◌}
use nauti_virtualizer.Plan.Text.{is_whitespace}
use nauti_virtualizer.Vmm.Pieces.{only, before, grow}

unfoldable pub is_empty : String → Bool
is_empty [] = true
is_empty (c ∷ s) = false

unfoldable pub trim_start : String → String
trim_start [] = []
trim_start (c ∷ s) = let rest = trim_start s in if is_whitespace (code c) then rest else c ∷ s

unfoldable pub trim_end : String → String
unfolding is_empty
trim_end [] = []
trim_end (c ∷ s) =
    let rest = trim_end s in if is_whitespace (code c) && is_empty rest then [] else c ∷ rest

unfoldable pub split_comma : String → List String
split_comma [] = only []
split_comma (c ∷ s) =
    let rest = split_comma s in if code c == 44 then before [] rest else grow (λ p. c ∷ p) rest
