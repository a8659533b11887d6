-- ===== src/Tests/PlateTests.antt =====
-- The plate normalizer at concrete inputs.
use vehicle_intelligence.Prelude.{
  ◌==◌, ℕ, ◌-◌, ◌≡◌, refl, Str, codes, leb, if◌then◌else◌, some, true, false, [], ◌∷◌, ◌&&◌, map,
  arith,
}
use vehicle_intelligence.Plates.{
  Settings, normalize, clean, structural_candidates, structural_candidate, coerce_positions, winner,
  is_preferred, format_candidate, serial_length, letter_to_digit, digit_to_letter, is_partial,
  partial_normalized,
}
use vehicle_intelligence.Plates.Marks.{IsWritten, is_written}
use vehicle_intelligence.Plates.Normalization.{IsFull, normalize-IsFull, normalize-normalize}

-- str.upper on ASCII
abbrev upper_character : ℕ → ℕ
upper_character c = if leb 97 c && leb c 122 then c - 32 else c

abbrev upper : Str → Str
upper text = map upper_character text

upper_character_same : (c : ℕ) → is_written c ≡ true → upper_character c ≡ c
upper_character_same c h = ground (arith, h)

upper_same : (s : Str) → IsWritten s → upper s ≡ s
upper_same [] h = refl
upper_same (c ∷ s) h = rw (upper_character_same c h.0, upper_same s h.1) refl

abbrev settings : Settings
settings = record { allow_partial = false; partial_min_characters = 4; partial_max_characters = 12 }

abbrev allowing : Settings
allowing = record { allow_partial = true; partial_min_characters = 4; partial_max_characters = 12 }

abbrev raw : Str
raw = codes "51hi23.45"

raw_is_valid : (normalize upper settings raw).valid ≡ true
unfolding normalize clean structural_candidates structural_candidate coerce_positions winner
    is_preferred format_candidate serial_length letter_to_digit digit_to_letter
raw_is_valid = refl

raw_is_full : (normalize upper settings raw).partial ≡ false
unfolding normalize clean structural_candidates structural_candidate coerce_positions winner
    is_preferred format_candidate serial_length letter_to_digit digit_to_letter
raw_is_full = refl

raw_is_written : (normalize upper settings raw).normalized ≡ some (codes "51H-123.45")
unfolding normalize clean structural_candidates structural_candidate coerce_positions winner
    is_preferred format_candidate serial_length letter_to_digit digit_to_letter ◌==◌
raw_is_written = refl

rear_line : (normalize upper allowing (codes "123 45")).normalized ≡ some (codes "123.45")
unfolding normalize clean structural_candidates is_partial partial_normalized ◌==◌
rear_line = refl

normalize-IsFull_example : IsFull (clean (upper raw)) (normalize upper settings raw)
normalize-IsFull_example = normalize-IsFull upper settings raw raw_is_valid raw_is_full

normalize-normalize_example :
    (compact : Str) × ((normalize upper settings raw).compact ≡ some compact)
    × (normalize upper settings (codes "51H-123.45") ≡ record {
      raw = codes "51H-123.45";
      cleaned = compact;
      compact = some compact;
      normalized = some (codes "51H-123.45");
      valid = true;
      corrections = [];
      partial = false;
    })
normalize-normalize_example =
    normalize-normalize upper settings raw (codes "51H-123.45") upper_same raw_is_valid raw_is_full
      raw_is_written
