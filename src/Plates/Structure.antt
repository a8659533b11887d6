-- ===== src/Plates/Structure.antt =====
-- The structure of the candidates.
use vehicle_intelligence.Prelude.{
  ℕ, zero, suc, ◌+◌, ◌-◌, ◌<◌, ◌≡◌, refl, sym, ap, ◌∙◌, arith, Str, eqb, leb, ltb, length, take,
  drop, get_elem?, if◌then◌else◌, Option, none, some, Bool-cases, inl, inr, [], ◌∷◌, Bool, true,
  false, ◌&&◌, ◌||◌, some_injective, chain-some, if-some,
}
use mathlib.Core.Path.{subst}
use vehicle_intelligence.Plates.{
  Coerced, fits, range, coerce_positions, series_fits, coerce_serial, coerce_series,
  structural_candidate, StructuralCandidate,
}
use vehicle_intelligence.Plates.Coercion.{
  has_position, fits_at, restore, coerce_positions-IsCoerced, coerce_positions_same,
}

pub has_position-range :
    (j first count : ℕ)
    → has_position j (range first count) ≡ (leb first j && ltb j (first + count))
has_position-range j first zero = ground arith
has_position-range j first (suc count) = ground (arith, has_position-range j (suc first) count)

-- A text has the structure of a plate with a series of n characters: two digits, a letter, for a
-- long series a known letter or a digit, and four or five digits.
pub record IsStructured (n : ℕ) (characters : Str) : Type 0 where
  pub size : (eqb (length characters - 2 - n) 4 || eqb (length characters - 2 - n) 5) ≡ true
  pub province : (j : ℕ) → has_position j (0 ∷ 1 ∷ []) ≡ true → fits_at true characters j ≡ true
  pub letter : (j : ℕ) → has_position j (2 ∷ []) ≡ true → fits_at false characters j ≡ true
  pub series : series_fits n characters ≡ true
  pub serial :
      (j : ℕ)
      → has_position j (range (2 + n) (length characters - 2 - n)) ≡ true
      → fits_at true characters j ≡ true

-- the two characters of `corrected[2:4]`
pair_of : Option ℕ → Option ℕ → Str
pair_of none d = []
pair_of (some c) none = c ∷ []
pair_of (some c) (some d) = c ∷ d ∷ []

take-drop : (xs : Str) → take 2 (drop 2 xs) ≡ pair_of (get_elem? xs 2) (get_elem? xs 3)
unfolding pair_of
take-drop [] = refl
take-drop (a ∷ []) = refl
take-drop (a ∷ b ∷ []) = refl
take-drop (a ∷ b ∷ c ∷ []) = refl
take-drop (a ∷ b ∷ c ∷ d ∷ xs) = refl

pub series_fits-kept :
    (n : ℕ) (xs ys : Str)
    → get_elem? xs 2 ≡ get_elem? ys 2
    → get_elem? xs 3 ≡ get_elem? ys 3
    → series_fits n xs ≡ series_fits n ys
series_fits-kept n xs ys h k =
    let pairs : take 2 (drop 2 xs) ≡ take 2 (drop 2 ys) =
      take-drop xs ∙ rw (h, k) (sym (take-drop ys)) in
    rw (k, pairs) refl

pub fits_at-kept :
    (expect : Bool) (xs ys : Str) (j : ℕ)
    → get_elem? ys j ≡ get_elem? xs j
    → fits_at expect xs j ≡ true
    → fits_at expect ys j ≡ true
fits_at-kept expect xs ys j same h =
    subst (λ o. (elim o [ none ↦ false | some c ↦ fits expect c ]) ≡ true) (sym same) h

-- The states of the three loops that lead to a candidate.
pub record Parts (cleaned : Str) (n : ℕ) (c : StructuralCandidate) : Type 0 where
  pub s₁ : Coerced
  pub s₂ : Coerced
  pub s₃ : Coerced
  pub size : (eqb (length cleaned - 2 - n) 4 || eqb (length cleaned - 2 - n) 5) ≡ true
  pub province : coerce_positions (0 ∷ 1 ∷ []) true (cleaned, []) ≡ some s₁
  pub letter : coerce_positions (2 ∷ []) false s₁ ≡ some s₂
  pub series : series_fits n s₂.0 ≡ true
  pub serial : coerce_positions (range (2 + n) (length cleaned - 2 - n)) true s₂ ≡ some s₃
  pub result : record { compact = s₃.0; series_length = n; corrections = s₃.1 } ≡ c

pub candidate-Parts :
    (cleaned : Str) (n : ℕ) (c : StructuralCandidate)
    → structural_candidate cleaned n ≡ some c
    → Parts cleaned n c
unfolding structural_candidate
candidate-Parts cleaned n c h =
    let m : ℕ = length cleaned - 2 - n in
    let (size, h₁) =
      if-some (eqb m 4 || eqb m 5)
        (elim (coerce_positions (0 ∷ 1 ∷ []) true (cleaned, [])) [
          | none ↦ none
          | some state ↦ coerce_series n m state
        ])
        h in
    let (s₁, e₁, h₂) =
      chain-some (coerce_positions (0 ∷ 1 ∷ []) true (cleaned, []))
        (λ state. coerce_series n m state) h₁ in
    let (s₂, e₂, h₃) =
      chain-some (coerce_positions (2 ∷ []) false s₁)
        (λ next. if series_fits n next.0 then coerce_serial n m next else none) h₂ in
    let (known, h₄) = if-some (series_fits n s₂.0) (coerce_serial n m s₂) h₃ in
    let (s₃, e₃, h₅) =
      chain-some (coerce_positions (range (2 + n) m) true s₂)
        (λ s. some (record { compact = s.0; series_length = n; corrections = s.1 })) h₄ in
    record {
      s₁ = s₁;
      s₂ = s₂;
      s₃ = s₃;
      size = size;
      province = e₁;
      letter = e₂;
      series = known;
      serial = e₃;
      result = some_injective h₅;
    }

pub Parts-candidate :
    (cleaned : Str) (n : ℕ) (c : StructuralCandidate)
    → Parts cleaned n c
    → structural_candidate cleaned n ≡ some c
unfolding structural_candidate
Parts-candidate cleaned n c p =
    rw (p.size, p.province, p.letter, coerce_series, p.series, p.serial, coerce_serial)
      (ap some p.result)

-- A candidate has the structure, and its corrections undone give the text it was made from.
pub candidate-IsStructured :
    (cleaned : Str) (n : ℕ) (c : StructuralCandidate)
    → 0 < n
    → structural_candidate cleaned n ≡ some c
    → IsStructured n c.compact
      × (c.series_length ≡ n)
      × (length c.compact ≡ length cleaned)
      × (restore c.compact c.corrections ≡ cleaned)
candidate-IsStructured cleaned n c positive h =
    let p = candidate-Parts cleaned n c h in
    let m : ℕ = length cleaned - 2 - n in
    let c₁ = coerce_positions-IsCoerced (0 ∷ 1 ∷ []) true (cleaned, []) p.s₁ p.province in
    let c₂ = coerce_positions-IsCoerced (2 ∷ []) false p.s₁ p.s₂ p.letter in
    let c₃ = coerce_positions-IsCoerced (range (2 + n) m) true p.s₂ p.s₃ p.serial in
    let sized : length p.s₃.0 ≡ length cleaned = c₃.same_length ∙ c₂.same_length ∙ c₁.same_length in
    let outside : (j : ℕ) → j < 2 + n → has_position j (range (2 + n) m) ≡ false =
      λ j low. ground (arith, has_position-range j (2 + n) m, low) in
    let structured : IsStructured n p.s₃.0 = record {
      size = rw sized p.size;
      province = λ j at.
          fits_at-kept true p.s₁.0 p.s₃.0 j
            (c₃.kept j (outside j (ground (arith, at, positive))) ∙ c₂.kept j (ground (arith, at)))
            (c₁.fitted j at);
      letter = λ j at.
          fits_at-kept false p.s₂.0 p.s₃.0 j (c₃.kept j (outside j (ground (arith, at, positive))))
            (c₂.fitted j at);
      series = elim (Bool-cases (eqb n 2)) [
        | inl two ↦
            series_fits-kept n p.s₃.0 p.s₂.0 (c₃.kept 2 (outside 2 (ground (arith, two))))
              (c₃.kept 3 (outside 3 (ground (arith, two))))
            ∙ p.series
        | inr other ↦ rw other refl
      ];
      serial = λ j at.
          c₃.fitted j (subst (λ k. has_position j (range (2 + n) (k - 2 - n)) ≡ true) sized at);
    } in
    subst
      (λ c.
        IsStructured n c.compact
        × (c.series_length ≡ n)
        × (length c.compact ≡ length cleaned)
        × (restore c.compact c.corrections ≡ cleaned))
      p.result (structured, refl, sized, c₃.undone ∙ c₂.undone ∙ c₁.undone)

-- A text with the structure is a candidate as it is.
pub IsStructured-candidate :
    (characters : Str) (n : ℕ)
    → IsStructured n characters
    → structural_candidate characters n
      ≡ some (record { compact = characters; series_length = n; corrections = [] })
IsStructured-candidate characters n h = Parts-candidate characters n _ (record {
  s₁ = (characters, []);
  s₂ = (characters, []);
  s₃ = (characters, []);
  size = h.size;
  province = coerce_positions_same (0 ∷ 1 ∷ []) true (characters, []) h.province;
  letter = coerce_positions_same (2 ∷ []) false (characters, []) h.letter;
  series = h.series;
  serial =
      coerce_positions_same (range (2 + n) (length characters - 2 - n)) true (characters, [])
        h.serial;
  result = refl;
})
