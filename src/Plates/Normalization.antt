-- ===== src/Plates/Normalization.antt =====
-- What `normalize` returns: the structure of a valid plate, and that its text is normal already.
use vehicle_intelligence.Prelude.{
  ℕ, ◌≤◌, ◌<◌, ◌≡◌, refl, sym, ap, ◌∙◌, arith, Str, leb, length, some_injective, none-ne-some,
  Option, none, some, Bool-cases, inl, inr, ◌⊎◌, [], true, false, ◌&&◌,
}
use mathlib.Core.Path.{subst}
use vehicle_intelligence.Plates.{
  PlateNormalization, StructuralCandidate, Settings, clean, structural_candidate,
  structural_candidates, found, from_candidates, is_preferred, winner, format_candidate, is_partial,
  normalize,
}
use vehicle_intelligence.Plates.Coercion.{restore}
use vehicle_intelligence.Plates.Structure.{
  IsStructured, candidate-IsStructured, IsStructured-candidate,
}
use vehicle_intelligence.Plates.Cleaning.{IsStructured-All, clean-format}
use vehicle_intelligence.Plates.Marks.{IsWritten, IsWritten-plain, IsWritten-format}
use vehicle_intelligence.Plates.Idempotence.{as_it_is, again_long, again_short}

-- The first candidate of the least key, of the one or two that there are.
abbrev Chosen :
    Option StructuralCandidate → Option StructuralCandidate → StructuralCandidate → Type 0
Chosen short long c =
    ((short ≡ some c) × ((d : StructuralCandidate) → long ≡ some d → is_preferred d c ≡ false))
    ⊎ ((long ≡ some c) × ((d : StructuralCandidate) → short ≡ some d → is_preferred c d ≡ true))

-- the result for a candidate
abbrev full : Str → Str → StructuralCandidate → PlateNormalization
full raw cleaned c = record {
  raw = raw;
  cleaned = cleaned;
  compact = some c.compact;
  normalized = some (format_candidate c);
  valid = true;
  corrections = c.corrections;
  partial = false;
}

none-chosen :
    (settings : Settings) (raw cleaned : Str)
    → (from_candidates settings raw cleaned []).valid ≡ true
    → (from_candidates settings raw cleaned []).partial ≡ false
    → ⊥
none-chosen settings raw cleaned valid partial = elim (Bool-cases (is_partial settings cleaned)) [
  | inl some_of ↦ ground (arith, valid, partial, some_of)
  | inr none_of ↦ ground (arith, valid, partial, none_of)
]

found-Chosen :
    (settings : Settings) (raw cleaned : Str) (short long : Option StructuralCandidate)
    → (from_candidates settings raw cleaned (found short (found long []))).valid ≡ true
    → (from_candidates settings raw cleaned (found short (found long []))).partial ≡ false
    → (c : StructuralCandidate) × Chosen short long c
      × (from_candidates settings raw cleaned (found short (found long [])) ≡ full raw cleaned c)
unfolding winner
found-Chosen settings raw cleaned none none valid partial =
    absurd (none-chosen settings raw cleaned valid partial)
found-Chosen settings raw cleaned (some a) none valid partial =
    (a, inl (refl, λ d e. absurd (none-ne-some e)), refl)
found-Chosen settings raw cleaned none (some b) valid partial =
    (b, inr (refl, λ d e. absurd (none-ne-some e)), refl)
found-Chosen settings raw cleaned (some a) (some b) valid partial =
    elim (Bool-cases (is_preferred b a)) [
      | inl long ↦ (
        b,
        inr (refl, λ d e. subst (λ x. is_preferred b x ≡ true) (some_injective e) long),
        rw long refl,
      )
      | inr short ↦ (
        a,
        inl (refl, λ d e. subst (λ x. is_preferred x a ≡ false) (some_injective e) short),
        rw short refl,
      )
    ]

Chosen-found :
    (settings : Settings) (raw cleaned : Str) (short long : Option StructuralCandidate)
    (c : StructuralCandidate)
    → Chosen short long c
    → from_candidates settings raw cleaned (found short (found long [])) ≡ full raw cleaned c
unfolding winner
Chosen-found settings raw cleaned short none c (inl (e, h)) = rw e refl
Chosen-found settings raw cleaned short (some b) c (inl (e, h)) = rw (e, h b refl) refl
Chosen-found settings raw cleaned none long c (inr (e, h)) = rw e refl
Chosen-found settings raw cleaned (some a) long c (inr (e, h)) = rw (e, h a refl) refl

-- Of the guard on the length and the candidates behind it.
normal-Chosen :
    (settings : Settings) (raw cleaned : Str)
    → (from_candidates settings raw cleaned (structural_candidates cleaned)).valid ≡ true
    → (from_candidates settings raw cleaned (structural_candidates cleaned)).partial ≡ false
    → (c : StructuralCandidate) × Chosen
        (structural_candidate cleaned 1)
        (structural_candidate cleaned 2)
        c
      × (from_candidates settings raw cleaned (structural_candidates cleaned) ≡ full raw cleaned c)
      × ((leb 7 (length cleaned) && leb (length cleaned) 9) ≡ true)
unfolding structural_candidates
normal-Chosen settings raw cleaned valid partial =
    elim (Bool-cases (leb 7 (length cleaned) && leb (length cleaned) 9)) [
      | inl sized ↦
          let (c, chosen, result) =
            found-Chosen settings raw cleaned (structural_candidate cleaned 1)
              (structural_candidate cleaned 2) (rw sized at valid) (rw sized at partial) in
          (c, chosen, rw sized result, sized)
      | inr other ↦
          absurd (none-chosen settings raw cleaned (rw other at valid) (rw other at partial))
    ]

-- A chosen candidate: it has the structure, of the size of the text, and can be undone.
record IsNormal (cleaned : Str) (n : ℕ) (c : StructuralCandidate) : Type 0 where
  positive : 0 < n
  most : n ≤ 2
  structured : IsStructured n c.compact
  series : c.series_length ≡ n
  sized : length c.compact ≡ length cleaned
  undone : restore c.compact c.corrections ≡ cleaned

candidate-IsNormal :
    (cleaned : Str) (n : ℕ) (c : StructuralCandidate)
    → 0 < n
    → n ≤ 2
    → structural_candidate cleaned n ≡ some c
    → IsNormal cleaned n c
candidate-IsNormal cleaned n c positive most e =
    let (structured, series, sized, undone) = candidate-IsStructured cleaned n c positive e in
    record {
      positive = positive;
      most = most;
      structured = structured;
      series = series;
      sized = sized;
      undone = undone;
    }

Chosen-IsNormal :
    (cleaned : Str) (c : StructuralCandidate)
    → Chosen (structural_candidate cleaned 1) (structural_candidate cleaned 2) c
    → (n : ℕ) × IsNormal cleaned n c
Chosen-IsNormal cleaned c (inl (e, h)) =
    (1, candidate-IsNormal cleaned 1 c (omega arith) (omega arith) e)
Chosen-IsNormal cleaned c (inr (e, h)) =
    (2, candidate-IsNormal cleaned 2 c (omega arith) (omega arith) e)

-- The text of a chosen candidate has that candidate, with no correction, chosen again.
Chosen-repeated :
    (cleaned : Str) (c : StructuralCandidate)
    → Chosen (structural_candidate cleaned 1) (structural_candidate cleaned 2) c
    → Chosen
        (structural_candidate c.compact 1)
        (structural_candidate c.compact 2)
        (as_it_is c.compact c.series_length)
Chosen-repeated cleaned c (inl (e, h)) =
    let p = candidate-IsNormal cleaned 1 c (omega arith) (omega arith) e in
    subst
      (λ n.
        Chosen (structural_candidate c.compact 1) (structural_candidate c.compact 2)
          (as_it_is c.compact n))
      (sym p.series)
      (inl (
        IsStructured-candidate c.compact 1 p.structured,
        λ d again. again_short cleaned c d e again,
      ))
Chosen-repeated cleaned c (inr (e, h)) =
    let p = candidate-IsNormal cleaned 2 c (omega arith) (omega arith) e in
    subst
      (λ n.
        Chosen (structural_candidate c.compact 1) (structural_candidate c.compact 2)
          (as_it_is c.compact n))
      (sym p.series)
      (inr (IsStructured-candidate c.compact 2 p.structured, again_long cleaned c e h))

-- What a valid full normalization says of the text that was read.
pub record IsFull (cleaned : Str) (result : PlateNormalization) : Type 0 where
  pub compact : Str
  pub series_length : ℕ
  pub is_compact : result.compact ≡ some compact
  pub at_least_one : 0 < series_length
  pub at_most_two : series_length ≤ 2
  pub structured : IsStructured series_length compact
  pub same_length : length compact ≡ length cleaned
  pub undone : restore compact result.corrections ≡ cleaned
  pub written : (text : Str) → result.normalized ≡ some text → clean text ≡ compact

full-IsFull :
    (raw cleaned : Str) (c : StructuralCandidate) (n : ℕ)
    → IsNormal cleaned n c
    → IsFull cleaned (full raw cleaned c)
full-IsFull raw cleaned c n h = record {
  compact = c.compact;
  series_length = n;
  is_compact = refl;
  at_least_one = h.positive;
  at_most_two = h.most;
  structured = h.structured;
  same_length = h.sized;
  undone = h.undone;
  written = λ text e.
      subst (λ t. clean t ≡ c.compact) (some_injective e)
        (clean-format c (IsStructured-All n c.compact h.positive h.most h.structured));
}

-- A valid result that is not partial has the structure of a plate: two digits, a series that is a
-- letter, a letter and a digit or a known pair, and four or five digits. Its corrections undone give
-- the cleaned text, and its normalized text without the marks is its compact text.
pub normalize-IsFull :
    (upper : Str → Str) (settings : Settings) (raw : Str)
    → (normalize upper settings raw).valid ≡ true
    → (normalize upper settings raw).partial ≡ false
    → IsFull (clean (upper raw)) (normalize upper settings raw)
unfolding normalize
normalize-IsFull upper settings raw valid partial =
    let (c, chosen, result, sized) = normal-Chosen settings raw (clean (upper raw)) valid partial in
    let (n, normal) = Chosen-IsNormal (clean (upper raw)) c chosen in
    subst (λ r. IsFull (clean (upper raw)) r) (sym result)
      (full-IsFull raw (clean (upper raw)) c n normal)

again :
    (settings : Settings) (text cleaned : Str) (c : StructuralCandidate)
    → Chosen (structural_candidate cleaned 1) (structural_candidate cleaned 2) c
    → (leb 7 (length cleaned) && leb (length cleaned) 9) ≡ true
    → length c.compact ≡ length cleaned
    → from_candidates settings text c.compact (structural_candidates c.compact)
      ≡ full text c.compact (as_it_is c.compact c.series_length)
unfolding structural_candidates
again settings text cleaned c chosen sized same =
    rw (same, sized)
      (Chosen-found settings text c.compact (structural_candidate c.compact 1)
        (structural_candidate c.compact 2) (as_it_is c.compact c.series_length)
        (Chosen-repeated cleaned c chosen))

format_as_it_is :
    (c : StructuralCandidate)
    → format_candidate (as_it_is c.compact c.series_length) ≡ format_candidate c
unfolding format_candidate
format_as_it_is c = refl

-- The text of a valid result that is not partial is its own normalization: the same compact text and
-- no correction, where str.upper leaves digits, the letters A to Z and the two marks alone.
pub normalize-normalize :
    (upper : Str → Str) (settings : Settings) (raw text : Str)
    → ((s : Str) → IsWritten s → upper s ≡ s)
    → (normalize upper settings raw).valid ≡ true
    → (normalize upper settings raw).partial ≡ false
    → (normalize upper settings raw).normalized ≡ some text
    → (compact : Str) × ((normalize upper settings raw).compact ≡ some compact)
      × (normalize upper settings text ≡ record {
        raw = text;
        cleaned = compact;
        compact = some compact;
        normalized = some text;
        valid = true;
        corrections = [];
        partial = false;
      })
unfolding normalize
normalize-normalize upper settings raw text kept valid partial written =
    let (c, chosen, result, sized) = normal-Chosen settings raw (clean (upper raw)) valid partial in
    let (n, normal) = Chosen-IsNormal (clean (upper raw)) c chosen in
    let plain = IsStructured-All n c.compact normal.positive normal.most normal.structured in
    let formatted : format_candidate c ≡ text =
      some_injective (sym (ap (λ r. r.normalized) result) ∙ written) in
    let upper_same : upper text ≡ text =
      kept text
        (subst IsWritten formatted (IsWritten-format c (IsWritten-plain c.compact plain))) in
    let cleaned : clean (upper text) ≡ c.compact =
      ap clean upper_same ∙ ap clean (sym formatted) ∙ clean-format c plain in
    (
      c.compact,
      ap (λ r. r.compact) result,
      rw
          (
            cleaned,
            again settings text (clean (upper raw)) c chosen sized normal.sized,
            format_as_it_is c,
            formatted,
          )
          refl,
    )
