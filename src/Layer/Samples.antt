-- ===== src/Layer/Samples.antt =====
-- A small graph for the tests.
use stream_mo_e.Common.{ℕ, Option, none, some, List, [], ◌∷◌}
use stream_mo_e.Layout.{codes}
use stream_mo_e.Layer.{Op, Tensor, view}

abbrev node : List (Option ℕ) → ℕ → Tensor
node src bytes = record { op = Op.other; src = src; bytes = bytes; name = [] }

-- 0: an input; 1 reads 0; 2 is a view of 1; 3 reads the view; 4, the output, reads 3; 5 reads 4; 6 reads 0.
abbrev pub graph : List Tensor
graph =
    node [] 4
    ∷ node (some 0 ∷ none ∷ []) 8
    ∷ record { op = view; src = some 1 ∷ []; bytes = 8; name = [] }
    ∷ node (some 2 ∷ some 0 ∷ []) 4
    ∷ record { op = Op.other; src = some 3 ∷ []; bytes = 4; name = codes "ffn_moe_out-1" }
    ∷ node (some 4 ∷ []) 4
    ∷ node (some 0 ∷ []) 4
    ∷ []

abbrev pub closure : List ℕ
closure = 1 ∷ 3 ∷ 4 ∷ []
