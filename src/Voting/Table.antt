-- ===== src/Voting/Table.antt =====
-- The rows of the table hold the distances of the prefixes, read backwards.
use vehicle_intelligence.Prelude.{ℕ, suc, ◌+◌, ◌≡◌, refl, ap, ◌∙◌, min, Str, length, List, [], ◌∷◌}
use vehicle_intelligence.Plates.{range}
use vehicle_intelligence.Voting.{differs, row, next_row, rows, last_element, distance}

-- The distance of two texts by their first characters: a row of it, then the whole.
unfoldable pub lev_row : ℕ → (Str → ℕ) → ℕ → Str → ℕ
lev_row c shorter n [] = n
lev_row c shorter n (d ∷ right) =
    let next = lev_row c shorter n right in
    min (min (next + 1) (shorter (d ∷ right) + 1)) (shorter right + differs c d)

unfoldable pub lev : Str → Str → ℕ
lev [] right = length right
lev (c ∷ left) right = lev_row c (lev left) (suc (length left)) right

abbrev pub onto {ℓ} : {A : Type ℓ} → List A → List A → List A
onto [] acc = acc
onto (x ∷ xs) acc = onto xs (x ∷ acc)

-- the distances of a and the prefixes of right, behind b
above : Str → Str → Str → List ℕ
above a b [] = []
above a b (d ∷ right) = lev a (d ∷ b) ∷ above a (d ∷ b) right

row-above :
    (c : ℕ) (a b right : Str)
    → row c (lev (c ∷ a) b) (lev a b) right (above a b right) ≡ above (c ∷ a) b right
unfolding row above lev lev_row
row-above c a b [] = refl
row-above c a b (d ∷ right) = ap (λ r. lev (c ∷ a) (d ∷ b) ∷ r) (row-above c a (d ∷ b) right)

length-lev : (a : Str) → lev a [] ≡ length a
unfolding lev lev_row
length-lev [] = refl
length-lev (c ∷ a) = refl

next_row-lev :
    (c : ℕ) (a right : Str)
    → next_row c (suc (length a)) right (lev a [] ∷ above a [] right)
      ≡ lev (c ∷ a) [] ∷ above (c ∷ a) [] right
unfolding lev lev_row
next_row-lev c a right = ap (λ r. suc (length a) ∷ r) (row-above c a [] right)

rows-lev :
    (left a right : Str)
    → rows (suc (length a)) left right (lev a [] ∷ above a [] right)
      ≡ lev (onto left a) [] ∷ above (onto left a) [] right
unfolding rows
rows-lev [] a right = refl
rows-lev (c ∷ left) a right =
    ap (rows (suc (suc (length a))) left right) (next_row-lev c a right)
    ∙ rows-lev left (c ∷ a) right

range-above : (b right : Str) → range (suc (length b)) (length right) ≡ above [] b right
unfolding above lev
range-above b [] = refl
range-above b (d ∷ right) = ap (λ r. suc (length b) ∷ r) (range-above (d ∷ b) right)

last-above : (a b right : Str) → last_element (lev a b ∷ above a b right) ≡ lev a (onto right b)
unfolding above
last-above a b [] = refl
last-above a b (d ∷ right) = last-above a (d ∷ b) right

pub distance-lev : (left right : Str) → distance left right ≡ lev (onto left []) (onto right [])
unfolding distance lev
distance-lev left right =
    ap (λ r. last_element (rows 1 left right (0 ∷ r))) (range-above [] right)
    ∙ ap last_element (rows-lev left [] right)
    ∙ last-above (onto left []) [] right
