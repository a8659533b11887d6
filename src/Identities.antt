-- ===== src/Identities.antt =====
-- The vehicle identities: infrastructure/persistence/identity_memory.py over the records of
-- domain/identity.py and domain/reid.py. Confidences are of any type C with the operations that the
-- code uses on floats; the range checks on floats are left out. X is for metadata values and what a
-- record only carries. How many events the event repository reassigned is an answer of the outside.
pub mod Aggregates
pub mod Repository
pub mod Reviews
pub mod Repeats
pub mod History
pub mod Totals
use vehicle_intelligence.Prelude.{
  ℕ, ◌+◌, Str, ◌==◌, strip, is_empty, length, take, leb, ltb, eqb, min, max, any, not,
  if◌then◌else◌, Option, none, some, is_some, List, [], ◌∷◌, ◌++◌, Bool, true, false, ◌&&◌, ◌||◌,
  Dict, get, put, Result, ok, err, ◌>>=◌, value_error,
}

pub data VehicleIdentityStatus : Type 0 where
  active merged split archived : VehicleIdentityStatus

pub data IdentityReviewAction : Type 0 where
  merge_action split_action : IdentityReviewAction

pub record PlateIdentitySignal (C : Type 0) : Type 0 where
  pub text : Str
  pub confidence : C
  pub first_seen_at : ℕ
  pub last_seen_at : ℕ

-- PlateIdentitySignal.__post_init__, but for the range of the confidence
unfoldable pub check_signal : {C : Type 0} → PlateIdentitySignal C → Result (PlateIdentitySignal C)
check_signal signal =
    if is_empty (strip signal.text)
    then err value_error
    else if ltb signal.last_seen_at signal.first_seen_at
    then err value_error
    else ok signal

pub record VehicleFingerprint (C X : Type 0) : Type 0 where
  pub id : Str
  pub vehicle_id : Str
  pub source_event_id : Str
  pub camera_id : Str
  pub observed_at : ℕ
  pub vehicle_type : Str
  pub vehicle_confidence : C
  pub plate : Option Str
  pub plate_confidence : Option C
  pub color : Option Str
  pub embedding : X

pub record VehicleIdentity (C X : Type 0) : Type 0 where
  pub id : Str
  pub primary_plate : Option Str
  pub plates : List (PlateIdentitySignal C)
  pub vehicle_type : Option Str
  pub color : Option Str
  pub first_seen_at : ℕ
  pub last_seen_at : ℕ
  pub observation_count : ℕ
  pub status : VehicleIdentityStatus
  pub revision : ℕ
  pub schema_version : ℕ
  pub metadata : Dict X

-- x or y, on optional texts: an empty text is false
abbrev pub or_else : Option Str → Option Str → Option Str
or_else none other = other
or_else (some []) other = other
or_else (some (c ∷ s)) other = some (c ∷ s)

abbrev pub is_active : VehicleIdentityStatus → Bool
is_active active = true
is_active merged = false
is_active split = false
is_active archived = false

abbrev pub has_text : {C : Type 0} → Str → List (PlateIdentitySignal C) → Bool
has_text text plates = any (λ p. p.text == text) plates

-- VehicleIdentity.__post_init__
unfoldable pub post_init : {C X : Type 0} → VehicleIdentity C X → Result (VehicleIdentity C X)
post_init i =
    if is_empty (strip i.id)
    then err value_error
    else if ltb i.last_seen_at i.first_seen_at || ltb i.observation_count 1
    then err value_error
    else if ltb i.revision 1 || ltb i.schema_version 1
    then err value_error
    else if ltb 16 (length i.plates)
    then err value_error
    else if (elim i.primary_plate [ none ↦ false | some primary ↦ not (has_text primary i.plates) ])
    then err value_error
    else ok i

-- max and + on confidences
pub record Floats (C : Type 0) : Type 0 where
  pub zero : C
  pub add : C → C → C
  pub less : C → C → Bool

module _ {C : Type 0} (floats : Floats C) where
  -- max(a, b): the first of the greatest
  abbrev pub larger : C → C → C
  larger a b = if floats.less a b then b else a

  abbrev pub combined : PlateIdentitySignal C → PlateIdentitySignal C → PlateIdentitySignal C
  combined existing signal = record {
    text = existing.text;
    confidence = larger existing.confidence signal.confidence;
    first_seen_at = min existing.first_seen_at signal.first_seen_at;
    last_seen_at = max existing.last_seen_at signal.last_seen_at;
  }

  -- the first signal of the text combined with the new one, if there is one
  abbrev pub combine_in :
      PlateIdentitySignal C
      → List (PlateIdentitySignal C)
      → Option (Result (List (PlateIdentitySignal C)))
  combine_in signal [] = none
  combine_in signal (item ∷ plates) =
      let later = combine_in signal plates in
      if item.text == signal.text
      then some (check_signal (combined item signal) >>= (λ c. ok (c ∷ plates)))
      else elim later [ none ↦ none | some rest ↦ some (rest >>= (λ items. ok (item ∷ items))) ]

  -- the loop over the signals of the observation
  abbrev pub add_signal :
      PlateIdentitySignal C → List (PlateIdentitySignal C) → Result (List (PlateIdentitySignal C))
  add_signal signal plates = elim (combine_in signal plates) [
    | some matched ↦ matched
    | none ↦ ok (if ltb (length plates) 16 then plates ++ signal ∷ [] else plates)
  ]

  abbrev pub add_signals :
      List (PlateIdentitySignal C)
      → List (PlateIdentitySignal C)
      → Result (List (PlateIdentitySignal C))
  add_signals [] plates = ok plates
  add_signals (signal ∷ signals) plates =
      add_signal signal plates >>= (λ items. add_signals signals items)

module _ {C X : Type 0} (floats : Floats C) where
  unfoldable pub merge_identity :
      VehicleIdentity C X → VehicleIdentity C X → Result (VehicleIdentity C X)
  merge_identity current observation = do
    plates ← add_signals floats observation.plates current.plates
    post_init (record current {
      primary_plate = or_else current.primary_plate observation.primary_plate;
      plates = plates;
      vehicle_type = or_else current.vehicle_type observation.vehicle_type;
      color = or_else current.color observation.color;
      first_seen_at = min current.first_seen_at observation.first_seen_at;
      last_seen_at = max current.last_seen_at observation.last_seen_at;
      observation_count = current.observation_count + 1;
      revision = current.revision + 1;
    })
