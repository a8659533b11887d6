-- ===== src/Plates/Cleaning.antt =====
-- Cleaning the normalized form of a candidate gives its compact form back.
use vehicle_intelligence.Prelude.{
  ℕ, zero, suc, ◌+◌, ◌-◌, ◌≤◌, ◌<◌, ◌≡◌, refl, sym, ap, ◌∙◌, arith, Str, codes, eqb, ltb, length,
  take, drop, select, All, get_elem?, if◌then◌else◌, Option, none, some, Bool-cases, inl, inr, [],
  ◌∷◌, ◌++◌, Bool, true, false, ◌||◌,
}
use mathlib.Core.Path.{subst}
use vehicle_intelligence.Plates.{
  StructuralCandidate, format_candidate, clean, is_digit, is_letter, series_fits, second_fits,
}
use vehicle_intelligence.Plates.Coercion.{fits_at}
use vehicle_intelligence.Plates.Structure.{IsStructured, has_position-range}

abbrev pub is_plate_character : ℕ → Bool
is_plate_character c = is_digit c || is_letter c

abbrev plain_at : Str → ℕ → Bool
plain_at characters j = elim (get_elem? characters j) [
  | none ↦ true
  | some c ↦ is_plate_character c
]

All-plain_at :
    (characters : Str)
    → ((j : ℕ) → plain_at characters j ≡ true)
    → All (λ c. is_plate_character c ≡ true) characters
All-plain_at [] h = tt
All-plain_at (c ∷ rest) h = (h 0, All-plain_at rest (λ j. h (suc j)))

get_elem?-beyond :
    (characters : Str) (j : ℕ) → length characters ≤ j → get_elem? characters j ≡ none
get_elem?-beyond [] j h = refl
get_elem?-beyond (c ∷ rest) zero h = absurd (omega arith)
get_elem?-beyond (c ∷ rest) (suc j) h = get_elem?-beyond rest j (omega arith)

plain-fits :
    (expect : Bool) (characters : Str) (j : ℕ)
    → fits_at expect characters j ≡ true
    → plain_at characters j ≡ true
plain-fits true characters j h = ground (arith, h)
plain-fits false characters j h = ground (arith, h)

either : (d l m : Bool) → (if l then m else d) ≡ true → (d || l) ≡ true
either d l m h = ground (arith, h)

plain-second :
    (o : Option ℕ) (pair : Str)
    → second_fits o pair ≡ true
    → (elim o [ none ↦ true | some c ↦ is_plate_character c ]) ≡ true
plain-second none pair h = refl
plain-second (some c) pair h = either (is_digit c) (is_letter c) _ h

second-of :
    (n : ℕ) (characters : Str)
    → eqb n 2 ≡ true
    → series_fits n characters ≡ true
    → second_fits (get_elem? characters 3) (take 2 (drop 2 characters)) ≡ true
second-of n characters two h = rw two at h

-- Every character of a structured text is a digit or a letter.
pub IsStructured-All :
    (n : ℕ) (characters : Str)
    → 0 < n
    → n ≤ 2
    → IsStructured n characters
    → All (λ c. is_plate_character c ≡ true) characters
IsStructured-All n characters positive most h = All-plain_at characters (λ j.
    elim (Bool-cases (ltb j 2)) [
      | inl province ↦ plain-fits true characters j (h.province j (ground (arith, province)))
      | inr later ↦ elim (Bool-cases (eqb j 2)) [
        | inl letter ↦ plain-fits false characters j (h.letter j (ground (arith, letter)))
        | inr further ↦ elim (Bool-cases (ltb j (2 + n))) [
          | inl series ↦
              let three : j ≡ 3 = ground (arith, later, further, series, most) in
              let two : eqb n 2 ≡ true = ground (arith, later, further, series, most) in
              subst (λ i. plain_at characters i ≡ true) (sym three)
                (plain-second (get_elem? characters 3) _ (second-of n characters two h.series))
          | inr serial ↦ elim (Bool-cases (ltb j (length characters))) [
            | inl inside ↦ plain-fits true characters j (
                h.serial j (
                  ground (
                    arith,
                    has_position-range j (2 + n) (length characters - 2 - n),
                    serial,
                    inside,
                  )))
            | inr beyond ↦
                rw (get_elem?-beyond characters j (ground (arith, beyond)), plain_at) refl
          ]
        ]
      ]
    ])

select-append : (p : ℕ → Bool) (xs ys : Str) → select p (xs ++ ys) ≡ select p xs ++ select p ys
select-append p [] ys = refl
select-append p (x ∷ xs) ys = ground (arith, select-append p xs ys)

select_same : (p : ℕ → Bool) (xs : Str) → All (λ c. p c ≡ true) xs → select p xs ≡ xs
select_same p [] h = refl
select_same p (x ∷ xs) h = rw (h.0, select_same p xs h.1)

take-append-drop : (n : ℕ) (xs : Str) → take n xs ++ drop n xs ≡ xs
take-append-drop zero xs = refl
take-append-drop (suc n) [] = refl
take-append-drop (suc n) (x ∷ xs) = ap (λ ys. x ∷ ys) (take-append-drop n xs)

-- A mark that is put in is taken out again.
select-infix :
    (p : ℕ → Bool) (n : ℕ) (mark : ℕ) (xs : Str)
    → p mark ≡ false
    → select p (take n xs ++ mark ∷ drop n xs) ≡ select p xs
select-infix p zero mark xs h = rw h refl
select-infix p (suc n) mark [] h = rw h refl
select-infix p (suc n) mark (x ∷ xs) h = ground (arith, select-infix p n mark xs)

select-serial :
    (b : Bool) (serial : Str)
    → clean (if b then take 3 serial ++ (codes "." ++ drop 3 serial) else serial) ≡ clean serial
unfolding clean
select-serial true serial = select-infix (λ c. is_plate_character c) 3 46 serial refl
select-serial false serial = refl

clean-append : (xs ys : Str) → clean (xs ++ ys) ≡ clean xs ++ clean ys
unfolding clean
clean-append xs ys = select-append (λ c. is_plate_character c) xs ys

clean-dash : (ys : Str) → clean (codes "-" ++ ys) ≡ clean ys
unfolding clean
clean-dash ys = refl

clean_same : (xs : Str) → All (λ c. is_plate_character c ≡ true) xs → clean xs ≡ xs
unfolding clean
clean_same xs h = select_same (λ c. is_plate_character c) xs h

pub clean-format :
    (c : StructuralCandidate)
    → All (λ x. is_plate_character x ≡ true) c.compact
    → clean (format_candidate c) ≡ c.compact
unfolding format_candidate
clean-format c h =
    let k = 2 + c.series_length in
    let prefix = take k c.compact in
    let serial = drop k c.compact in
    clean-append prefix _
    ∙ ap (λ ys. clean prefix ++ ys) (clean-dash _ ∙ select-serial (eqb (length serial) 5) serial)
    ∙ sym (clean-append prefix serial)
    ∙ ap clean (take-append-drop k c.compact)
    ∙ clean_same c.compact h
