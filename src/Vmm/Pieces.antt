-- ===== src/Vmm/Pieces.antt =====
-- What `str::split` makes of its pieces, for nauti-fabric/src/vmm/cloud_hypervisor.rs.
use nauti_virtualizer.Prelude.{String, List, [], ◌∷◌}

abbrev pub only : String → List String
only s = s ∷ []

abbrev pub before : String → List String → List String
before s pieces = s ∷ pieces

-- The first piece grows at its front.
abbrev pub grow : (String → String) → List String → List String
grow f [] = []
grow f (p ∷ pieces) = f p ∷ pieces
