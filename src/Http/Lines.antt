-- ===== src/Http/Lines.antt =====
-- `str::lines` of the standard library, as nauti-fabric/src/plan.rs uses it.
use nauti_virtualizer.Prelude.{String, ◌==◌, List, [], ◌∷◌, if◌then◌else◌}
use nauti_virtualizer.Vmm.Texts.{is_empty}
use nauti_virtualizer.Http.Text.{split, strip_cr}

-- Every piece but the last ended in a line feed; an empty last piece is no line.
unfoldable pub line_ends : List String → List String
unfolding is_empty strip_cr
line_ends [] = []
line_ends (p ∷ []) = if is_empty p then [] else p ∷ []
line_ends (p ∷ q ∷ ps) = strip_cr p ∷ line_ends (q ∷ ps)

-- `s.lines()`
unfoldable pub lines : String → List String
unfolding line_ends split
lines s = line_ends (split (λ c. c == 10) s)
