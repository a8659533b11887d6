-- ===== src/Plates.antt =====
-- Plates: VietnamPlateNormalizer (application/normalization.py) and the records of domain/plate.py
-- that it makes. A character is its code point; str.upper is a parameter. The constant confidence of
-- a correction is left out. Positions are always inside the text; outside it Python would raise, and
-- the model finds no candidate.
pub mod Coercion
pub mod Structure
pub mod Cleaning
pub mod Idempotence
pub mod Marks
pub mod Normalization
use vehicle_intelligence.Prelude.{
  ℕ, zero, suc, ◌+◌, ◌-◌, Str, ◌==◌, codes, eqb, leb, ltb, not, any, all, length, take, drop,
  select, get_elem?, set, member, if◌then◌else◌, Result, ok, err, value_error, Option, none, some,
  List, [], ◌∷◌, ◌++◌, Bool, true, false, ◌&&◌, ◌||◌,
}

pub record CharacterCorrection : Type 0 where
  pub position : ℕ
  pub from_character : ℕ
  pub to_character : ℕ

pub record PlateNormalization : Type 0 where
  pub raw : Str
  pub cleaned : Str
  pub compact : Option Str
  pub normalized : Option Str
  pub valid : Bool
  pub corrections : List CharacterCorrection
  pub partial : Bool

pub record StructuralCandidate : Type 0 where
  pub compact : Str
  pub series_length : ℕ
  pub corrections : List CharacterCorrection

-- the settings of the constructor
pub record Settings : Type 0 where
  pub allow_partial : Bool
  pub partial_min_characters : ℕ
  pub partial_max_characters : ℕ

unfoldable pub new_settings : Bool → ℕ → ℕ → Result Settings
new_settings allow_partial partial_min_characters partial_max_characters =
    if ltb partial_min_characters 1
    then err value_error
    else if ltb partial_max_characters partial_min_characters
    then err value_error
    else ok (record {
      allow_partial = allow_partial;
      partial_min_characters = partial_min_characters;
      partial_max_characters = partial_max_characters;
    })

-- `isdigit` and `isalpha` of a character that is left by the cleaning
abbrev pub is_digit : ℕ → Bool
is_digit c = leb 48 c && leb c 57

abbrev pub is_letter : ℕ → Bool
is_letter c = leb 65 c && leb c 90

-- _NON_ALNUM.sub("", text)
unfoldable pub clean : Str → Str
clean text = select (λ c. is_digit c || is_letter c) text

unfoldable pub letter_to_digit : ℕ → Option ℕ
letter_to_digit c =
    if eqb c 79
    then some 48
    else if eqb c 73
    then some 49
    else if eqb c 90
    then some 50
    else if eqb c 83
    then some 53
    else if eqb c 71
    then some 54
    else if eqb c 66
    then some 56
    else none

unfoldable pub digit_to_letter : ℕ → Option ℕ
digit_to_letter c =
    if eqb c 48
    then some 79
    else if eqb c 49
    then some 73
    else if eqb c 50
    then some 90
    else if eqb c 53
    then some 83
    else if eqb c 54
    then some 71
    else if eqb c 56
    then some 66
    else none

abbrev pub known_two_letter_series : List Str
known_two_letter_series =
    codes "CD"
    ∷ codes "CV"
    ∷ codes "DA"
    ∷ codes "HC"
    ∷ codes "KT"
    ∷ codes "LA"
    ∷ codes "LB"
    ∷ codes "LD"
    ∷ codes "MA"
    ∷ codes "MK"
    ∷ codes "NG"
    ∷ codes "NN"
    ∷ codes "QT"
    ∷ codes "RM"
    ∷ codes "TĐ"
    ∷ []

abbrev pub fits : Bool → ℕ → Bool
fits true c = is_digit c
fits false c = is_letter c

abbrev pub replacement_of : Bool → ℕ → Option ℕ
replacement_of true c = letter_to_digit c
replacement_of false c = digit_to_letter c

-- what the loop changes: the characters and the corrections
abbrev pub Coerced : Type 0
Coerced = Str × List CharacterCorrection

abbrev pub replaced : Option ℕ → ℕ → ℕ → Coerced → Option Coerced
replaced none position character (characters, corrections) = none
replaced (some replacement) position character (characters, corrections) = some (
  set characters position replacement,
  corrections
      ++ record { position = position; from_character = character; to_character = replacement }
        ∷ [],
)

-- one round of the loop of `_coerce_positions`; none is `return False`
abbrev pub coerce_character : Option ℕ → ℕ → Bool → Coerced → Option Coerced
coerce_character none position expect_digit state = none
coerce_character (some character) position expect_digit state =
    if fits expect_digit character
    then some state
    else replaced (replacement_of expect_digit character) position character state

unfoldable pub coerce_positions : List ℕ → Bool → Coerced → Option Coerced
coerce_positions [] expect_digit state = some state
coerce_positions (position ∷ positions) expect_digit state =
    elim (coerce_character (get_elem? state.0 position) position expect_digit state) [
      | none ↦ none
      | some next ↦ coerce_positions positions expect_digit next
    ]

-- range(first, first + count)
abbrev pub range : ℕ → ℕ → List ℕ
range first zero = []
range first (suc count) = first ∷ range (suc first) count

-- what is asked of the second character of a series of two
abbrev pub second_fits : Option ℕ → Str → Bool
second_fits none pair = false
second_fits (some second) pair =
    if is_letter second then member pair known_two_letter_series else is_digit second

abbrev pub series_fits : ℕ → Str → Bool
series_fits series_length characters =
    if eqb series_length 2
    then second_fits (get_elem? characters 3) (take 2 (drop 2 characters))
    else true

abbrev pub coerce_serial : ℕ → ℕ → Coerced → Option StructuralCandidate
coerce_serial series_length serial_length state =
    elim (coerce_positions (range (2 + series_length) serial_length) true state) [
      | none ↦ none
      | some (compact, corrections) ↦
          some
            (record { compact = compact; series_length = series_length; corrections = corrections })
    ]

abbrev pub coerce_series : ℕ → ℕ → Coerced → Option StructuralCandidate
coerce_series series_length serial_length state = elim (coerce_positions (2 ∷ []) false state) [
  | none ↦ none
  | some next ↦
      if series_fits series_length next.0
      then coerce_serial series_length serial_length next
      else none
]

-- one round of the loop of `_structural_candidates`; none is `continue`
unfoldable pub structural_candidate : Str → ℕ → Option StructuralCandidate
structural_candidate cleaned series_length =
    let serial_length = length cleaned - 2 - series_length in
    if eqb serial_length 4 || eqb serial_length 5
    then (elim (coerce_positions (0 ∷ 1 ∷ []) true (cleaned, [])) [
      | none ↦ none
      | some state ↦ coerce_series series_length serial_length state
    ])
    else none

abbrev pub found : Option StructuralCandidate → List StructuralCandidate → List StructuralCandidate
found none rest = rest
found (some candidate) rest = candidate ∷ rest

unfoldable pub structural_candidates : Str → List StructuralCandidate
structural_candidates cleaned =
    if leb 7 (length cleaned) && leb (length cleaned) 9
    then found (structural_candidate cleaned 1) (found (structural_candidate cleaned 2) [])
    else []

unfoldable pub serial_length : StructuralCandidate → ℕ
serial_length c = length c.compact - 2 - c.series_length

-- the keys of `min`, compared as tuples
unfoldable pub is_preferred : StructuralCandidate → StructuralCandidate → Bool
unfolding serial_length
is_preferred a b =
    let rank_a : ℕ = if eqb (serial_length a) 5 then 0 else 1 in
    let rank_b : ℕ = if eqb (serial_length b) 5 then 0 else 1 in
    if eqb (length a.corrections) (length b.corrections)
    then (if eqb rank_a rank_b then ltb a.series_length b.series_length else ltb rank_a rank_b)
    else ltb (length a.corrections) (length b.corrections)

-- min(candidates, key=…): the first of the least
unfoldable pub winner : StructuralCandidate → List StructuralCandidate → StructuralCandidate
winner best [] = best
winner best (c ∷ rest) = winner (if is_preferred c best then c else best) rest

unfoldable pub format_candidate : StructuralCandidate → Str
format_candidate c =
    let prefix = take (2 + c.series_length) c.compact in
    let serial = drop (2 + c.series_length) c.compact in
    prefix
    ++ (codes "-"
        ++ (if eqb (length serial) 5
            then take 3 serial ++ (codes "." ++ drop 3 serial)
            else serial))

unfoldable pub partial_normalized : Str → Str
partial_normalized cleaned =
    if eqb (length cleaned) 5 && all is_digit cleaned
    then take 3 cleaned ++ (codes "." ++ drop 3 cleaned)
    else cleaned

unfoldable pub is_partial : Settings → Str → Bool
is_partial settings cleaned =
    settings.allow_partial
    && leb settings.partial_min_characters (length cleaned)
    && leb (length cleaned) settings.partial_max_characters
    && any is_digit cleaned

abbrev pub from_candidates : Settings → Str → Str → List StructuralCandidate → PlateNormalization
from_candidates settings raw cleaned [] =
    if is_partial settings cleaned
    then record {
      raw = raw;
      cleaned = cleaned;
      compact = some cleaned;
      normalized = some (partial_normalized cleaned);
      valid = true;
      corrections = [];
      partial = true;
    }
    else record {
      raw = raw;
      cleaned = cleaned;
      compact = none;
      normalized = none;
      valid = false;
      corrections = [];
      partial = false;
    }
from_candidates settings raw cleaned (c ∷ rest) =
    let best = winner c rest in
    record {
      raw = raw;
      cleaned = cleaned;
      compact = some best.compact;
      normalized = some (format_candidate best);
      valid = true;
      corrections = best.corrections;
      partial = false;
    }

unfoldable pub normalize : (Str → Str) → Settings → Str → PlateNormalization
normalize upper settings raw =
    let cleaned = clean (upper raw) in
    from_candidates settings raw cleaned (structural_candidates cleaned)
