-- ===== src/Plates/Marks.antt =====
-- The characters of a formatted plate: digits, letters and the two marks.
use vehicle_intelligence.Prelude.{
  ℕ, zero, suc, codes, take, drop, ◌++◌, ◌+◌, ◌≡◌, refl, Str, eqb, length, All, if◌then◌else◌, [],
  ◌∷◌, Bool, true, false, ◌||◌,
}
use vehicle_intelligence.Plates.{StructuralCandidate, format_candidate}
use vehicle_intelligence.Plates.Cleaning.{is_plate_character}

-- a character of the text of a plate
abbrev pub is_written : ℕ → Bool
is_written c = is_plate_character c || eqb c 45 || eqb c 46

abbrev pub IsWritten : Str → Type 0
IsWritten text = All (λ c. is_written c ≡ true) text

IsWritten-concat : (xs ys : Str) → IsWritten xs → IsWritten ys → IsWritten (xs ++ ys)
IsWritten-concat [] ys h k = k
IsWritten-concat (x ∷ xs) ys h k = (h.0, IsWritten-concat xs ys h.1 k)

IsWritten-take : (n : ℕ) (xs : Str) → IsWritten xs → IsWritten (take n xs)
IsWritten-take zero xs h = tt
IsWritten-take (suc n) [] h = tt
IsWritten-take (suc n) (x ∷ xs) h = (h.0, IsWritten-take n xs h.1)

IsWritten-drop : (n : ℕ) (xs : Str) → IsWritten xs → IsWritten (drop n xs)
IsWritten-drop zero xs h = h
IsWritten-drop (suc n) [] h = tt
IsWritten-drop (suc n) (x ∷ xs) h = IsWritten-drop n xs h.1

pub IsWritten-plain : (xs : Str) → All (λ c. is_plate_character c ≡ true) xs → IsWritten xs
IsWritten-plain [] h = tt
IsWritten-plain (x ∷ xs) h = (rw (h.0, is_written) refl, IsWritten-plain xs h.1)

IsWritten-serial :
    (b : Bool) (serial : Str)
    → IsWritten serial
    → IsWritten (if b then take 3 serial ++ (codes "." ++ drop 3 serial) else serial)
IsWritten-serial true serial h =
    IsWritten-concat (take 3 serial) (codes "." ++ drop 3 serial) (IsWritten-take 3 serial h)
      (refl, IsWritten-drop 3 serial h)
IsWritten-serial false serial h = h

pub IsWritten-format :
    (c : StructuralCandidate) → IsWritten c.compact → IsWritten (format_candidate c)
unfolding format_candidate
IsWritten-format c h =
    let k : ℕ = 2 + c.series_length in
    let serial : Str = drop k c.compact in
    IsWritten-concat (take k c.compact)
      (codes "-"
        ++ (if eqb (length serial) 5
            then take 3 serial ++ (codes "." ++ drop 3 serial)
            else serial))
      (IsWritten-take k c.compact h)
      (refl, IsWritten-serial (eqb (length serial) 5) serial (IsWritten-drop k c.compact h))
