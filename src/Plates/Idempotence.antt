-- ===== src/Plates/Idempotence.antt =====
-- A normalized plate is its own normalization.
use vehicle_intelligence.Prelude.{
  ℕ, ◌-◌, ◌<◌, ◌≡◌, refl, sym, ap, ◌∙◌, arith, Str, length, some_injective, some, Bool-cases, inl,
  inr, [], ◌∷◌, true, false,
}
use mathlib.Core.Path.{subst}
use vehicle_intelligence.Plates.{
  Coerced, range, coerce_positions, structural_candidate, StructuralCandidate, is_preferred,
}
use vehicle_intelligence.Plates.Coercion.{
  fits_at, coerce_positions-IsCoerced, coerce_positions_same, coerce_positions_more,
  coerce_positions_fit,
}
use vehicle_intelligence.Plates.Structure.{
  IsStructured, candidate-Parts, Parts-candidate, candidate-IsStructured, has_position-range,
  fits_at-kept,
}

abbrev pub as_it_is : Str → ℕ → StructuralCandidate
as_it_is characters n = record { compact = characters; series_length = n; corrections = [] }

-- A digit in the place of a second letter: the short series gives the same text at the same cost.
digit_second :
    (cleaned : Str) (c : StructuralCandidate)
    → structural_candidate cleaned 2 ≡ some c
    → length cleaned ≡ 8
    → fits_at true c.compact 3 ≡ true
    → structural_candidate cleaned 1
      ≡ some (record { compact = c.compact; series_length = 1; corrections = c.corrections })
digit_second cleaned c h eight digit =
    let p = candidate-Parts cleaned 2 c h in
    let c₃ =
      coerce_positions-IsCoerced (range 4 (length cleaned - 2 - 2)) true p.s₂ p.s₃ p.serial in
    let here : fits_at true p.s₂.0 3 ≡ true =
      fits_at-kept true p.s₃.0 p.s₂.0 3
        (sym (c₃.kept 3 (ground (arith, has_position-range 3 4 (length cleaned - 2 - 2)))))
        (subst (λ d. fits_at true d.compact 3 ≡ true) (sym p.result) digit) in
    Parts-candidate cleaned 1 _ (record {
      s₁ = p.s₁;
      s₂ = p.s₂;
      s₃ = p.s₃;
      size = rw eight refl;
      province = p.province;
      letter = p.letter;
      series = refl;
      serial =
          subst (λ k. coerce_positions (range 3 (k - 2 - 1)) true p.s₂ ≡ some p.s₃) (sym eight)
            (coerce_positions_fit 3 (range 4 4) true p.s₂ here
              ∙ subst (λ k. coerce_positions (range 4 (k - 2 - 2)) true p.s₂ ≡ some p.s₃) eight
                  p.serial);
      result =
          ap (λ d. record { compact = d.compact; series_length = 1; corrections = d.corrections })
            p.result;
    })

-- A long series with a letter costs the short one a correction.
letter_second :
    (characters : Str) (c : StructuralCandidate)
    → IsStructured 2 characters
    → length characters ≡ 8
    → fits_at true characters 3 ≡ false
    → structural_candidate characters 1 ≡ some c
    → 0 < length c.corrections
letter_second characters c h eight letter made =
    let p = candidate-Parts characters 1 c made in
    let same₁ : (characters, []) ≡ p.s₁ =
      some_injective
        (sym (coerce_positions_same (0 ∷ 1 ∷ []) true (characters, []) h.province) ∙ p.province) in
    let same₂ : (characters, []) ≡ p.s₂ = some_injective (
      sym (coerce_positions_same (2 ∷ []) false (characters, []) h.letter)
      ∙ ap (coerce_positions (2 ∷ []) false) same₁
      ∙ p.letter) in
    let more : length p.s₂.1 < length p.s₃.1 =
      coerce_positions_more (range 3 (length characters - 2 - 1)) true p.s₂ p.s₃ 3 p.serial
        (rw eight refl) (subst (λ (s : Coerced). fits_at true s.0 3 ≡ false) same₂ letter) in
    omega (arith, more, ap (λ (d : StructuralCandidate). length d.corrections) p.result)

-- The candidates of the text of the one that was chosen: it is chosen again, with no correction.
pub again_long :
    (cleaned : Str) (c : StructuralCandidate)
    → structural_candidate cleaned 2 ≡ some c
    → ((d : StructuralCandidate)
        → structural_candidate cleaned 1 ≡ some d
        → is_preferred c d ≡ true)
    → (d : StructuralCandidate) → structural_candidate c.compact 1 ≡ some d
    → is_preferred (as_it_is c.compact 2) d ≡ true
unfolding is_preferred
again_long cleaned c made chosen d again =
    let (structured, series, sized, undone) =
      candidate-IsStructured cleaned 2 c (omega arith) made in
    let p = candidate-Parts c.compact 1 d again in
    let eight : length c.compact ≡ 8 = ground (arith, structured.size, p.size) in
    elim (Bool-cases (fits_at true c.compact 3)) [
      | inr letter ↦ ground (arith, letter_second c.compact d structured eight letter again)
      | inl digit ↦
          let short = digit_second cleaned c made (sym sized ∙ eight) digit in
          absurd (worse (chosen _ short) eight series)
    ]
  where
    worse :
        is_preferred c
            (record { compact = c.compact; series_length = 1; corrections = c.corrections })
          ≡ true
        → length c.compact ≡ 8
        → c.series_length ≡ 2
        → ⊥
    worse h e two = ground (arith, h, e, two)

pub again_short :
    (cleaned : Str) (c d : StructuralCandidate)
    → structural_candidate cleaned 1 ≡ some c
    → structural_candidate c.compact 2 ≡ some d
    → is_preferred d (as_it_is c.compact 1) ≡ false
unfolding is_preferred
again_short cleaned c d made again =
    let (structured, series, sized, undone) =
      candidate-IsStructured cleaned 1 c (omega arith) made in
    let (other, long, same, _) = candidate-IsStructured c.compact 2 d (omega arith) again in
    let p = candidate-Parts c.compact 2 d again in
    ground (arith, structured.size, p.size, long, same)
