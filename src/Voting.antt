-- ===== src/Voting.antt =====
-- edit_distance of application/voting.py, by which plate observations are clustered.
pub mod Table
pub mod Scripts
pub mod Distance
use vehicle_intelligence.Prelude.{
  ℕ, suc, ◌+◌, min, Str, eqb, ltb, length, if◌then◌else◌, List, [], ◌∷◌, Bool, true, false,
}
use vehicle_intelligence.Plates.{range}

-- left_character != right_character, as a number
abbrev pub differs : ℕ → ℕ → ℕ
differs c d = if eqb c d then 0 else 1

-- The inner loop: what it appends to `current`, whose last element is `last`. The previous row from
-- its element before the right character on is diagonal ∷ above; it is never too short.
unfoldable pub row : ℕ → ℕ → ℕ → Str → List ℕ → List ℕ
row c last diagonal [] above = []
row c last diagonal (d ∷ right) [] = []
row c last diagonal (d ∷ right) (up ∷ above) =
    let next = min (min (last + 1) (up + 1)) (diagonal + differs c d) in
    next ∷ row c next up right above

abbrev pub next_row : ℕ → ℕ → Str → List ℕ → List ℕ
next_row c left_index right [] = []
next_row c left_index right (diagonal ∷ above) = left_index ∷ row c left_index diagonal right above

-- the outer loop, from an index on
unfoldable pub rows : ℕ → Str → Str → List ℕ → List ℕ
rows left_index [] right previous = previous
rows left_index (c ∷ left) right previous =
    rows (suc left_index) left right (next_row c left_index right previous)

-- previous[-1]
abbrev pub last_element : List ℕ → ℕ
last_element [] = 0
last_element (n ∷ []) = n
last_element (n ∷ m ∷ row) = last_element (m ∷ row)

unfoldable pub distance : Str → Str → ℕ
distance left right = last_element (rows 1 left right (range 0 (suc (length right))))

unfoldable pub edit_distance : Str → Str → ℕ
edit_distance left right =
    if ltb (length left) (length right) then distance right left else distance left right
