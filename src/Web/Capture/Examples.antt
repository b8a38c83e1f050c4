-- ===== src/Web/Capture/Examples.antt =====
-- Two lines in three chunks: tests, and the statements about them at a concrete input.
use fghj.Prelude.{ℕ, some, List, [], ◌∷◌, ◌≡◌, refl}
use fghj.Web.Capture.{Lines, cut, take_lines, push, push_each, concat}
use fghj.Web.Capture.Chunks.{IsSplit, push_each_lem}

abbrev nothing : Lines
nothing = record { buf = [] }

abbrev chunks : List (List ℕ)
chunks = (97 ∷ 98 ∷ []) ∷ (99 ∷ 10 ∷ 100 ∷ []) ∷ (10 ∷ 101 ∷ []) ∷ []

in_chunks :
    push_each chunks nothing
    ≡ some ((97 ∷ 98 ∷ 99 ∷ []) ∷ (100 ∷ []) ∷ [], record { buf = 101 ∷ [] })
unfolding push_each push take_lines cut
in_chunks = refl

push_each_lem_example :
    (lines : List (List ℕ)) × (t : Lines) × (push_each chunks nothing ≡ some (lines, t))
    × IsSplit (concat chunks) nothing lines t
push_each_lem_example = push_each_lem chunks nothing tt
