-- ===== src/Identities/Aggregates.antt =====
-- identity_from_fingerprints: an identity as the aggregate of its fingerprints.
use vehicle_intelligence.Prelude.{
  ℕ, ◌+◌, Str, ltb, eqb, min, max, length, take, if◌then◌else◌, Option, none, some, List, [], ◌∷◌,
  Bool, true, false, Dict, get, put, values, Result, ok, err, ◌>>=◌, value_error,
}
use vehicle_intelligence.Persistence.Order.{str_lt}
use vehicle_intelligence.Identities.{
  PlateIdentitySignal, VehicleFingerprint, VehicleIdentity, active, post_init, check_signal, Floats,
  combined,
}

module _ {V : Type 0} (less : V → V → Bool) where
  -- (d[a], a) < (d[b], b)
  abbrev pub entry_less : Str × V → Str × V → Bool
  entry_less (a, v) (b, w) = if less v w then true else if less w v then false else str_lt a b

  -- max(d, key=lambda value: (d[value], value)), from the best so far
  abbrev pub best_entry : Str × V → Dict V → Str
  best_entry best [] = best.0
  best_entry best (entry ∷ d) = best_entry (if entry_less best entry then entry else best) d

  abbrev pub best_key : Dict V → Option Str
  best_key [] = none
  best_key (entry ∷ d) = some (best_entry entry d)

module _ {C : Type 0} (floats : Floats C) where
  -- the sort key: (confidence, last_seen_at, text)
  abbrev pub signal_less : PlateIdentitySignal C → PlateIdentitySignal C → Bool
  signal_less a b =
      if floats.less a.confidence b.confidence
      then true
      else if floats.less b.confidence a.confidence
      then false
      else if ltb a.last_seen_at b.last_seen_at
      then true
      else if eqb a.last_seen_at b.last_seen_at
      then str_lt a.text b.text
      else false

  abbrev pub insert_signal :
      PlateIdentitySignal C → List (PlateIdentitySignal C) → List (PlateIdentitySignal C)
  insert_signal signal [] = signal ∷ []
  insert_signal signal (item ∷ plates) =
      let later = insert_signal signal plates in
      if signal_less signal item then item ∷ later else signal ∷ item ∷ plates

  -- sorted(…, reverse=True)
  abbrev pub sort_signals : List (PlateIdentitySignal C) → List (PlateIdentitySignal C)
  sort_signals [] = []
  sort_signals (signal ∷ plates) = insert_signal signal (sort_signals plates)

  abbrev pub add_plate :
      Option Str
      → Option C
      → ℕ
      → Dict (PlateIdentitySignal C)
      → Result (Dict (PlateIdentitySignal C))
  add_plate none confidence observed_at plates = ok plates
  add_plate (some plate) none observed_at plates = ok plates
  add_plate (some plate) (some confidence) observed_at plates = do
    signal ← check_signal (record {
      text = plate;
      confidence = confidence;
      first_seen_at = observed_at;
      last_seen_at = observed_at;
    })
    entry ← elim (get plates plate) [
      | none ↦ ok signal
      | some current ↦ check_signal (combined floats current signal)
    ]
    ok (put plates plate entry)

abbrev pub count_color : Option Str → Dict ℕ → Dict ℕ
count_color none counts = counts
count_color (some color) counts =
    put counts color ((elim (get counts color) [ none ↦ 0 | some n ↦ n ]) + 1)

abbrev pub first_text : {C : Type 0} → List (PlateIdentitySignal C) → Option Str
first_text [] = none
first_text (signal ∷ plates) = some signal.text

module _ {C X : Type 0} (floats : Floats C) where
  abbrev pub plates_of :
      List (VehicleFingerprint C X)
      → Dict (PlateIdentitySignal C)
      → Result (Dict (PlateIdentitySignal C))
  plates_of [] plates = ok plates
  plates_of (item ∷ fingerprints) plates =
      add_plate floats item.plate item.plate_confidence item.observed_at plates
      >>= (λ later. plates_of fingerprints later)

  abbrev pub type_scores : List (VehicleFingerprint C X) → Dict C → Dict C
  type_scores [] scores = scores
  type_scores (item ∷ fingerprints) scores =
      let before : C = elim (get scores item.vehicle_type) [
        | none ↦ floats.zero
        | some score ↦ score
      ] in
      type_scores fingerprints
        (put scores item.vehicle_type (floats.add before item.vehicle_confidence))

  abbrev pub color_counts : List (VehicleFingerprint C X) → Dict ℕ → Dict ℕ
  color_counts [] counts = counts
  color_counts (item ∷ fingerprints) counts =
      color_counts fingerprints (count_color item.color counts)

  abbrev pub earliest : ℕ → List (VehicleFingerprint C X) → ℕ
  earliest time [] = time
  earliest time (item ∷ fingerprints) = earliest (min time item.observed_at) fingerprints

  abbrev pub latest_of : ℕ → List (VehicleFingerprint C X) → ℕ
  latest_of time [] = time
  latest_of time (item ∷ fingerprints) = latest_of (max time item.observed_at) fingerprints

  unfoldable pub identity_from_fingerprints :
      Str → List (VehicleFingerprint C X) → ℕ → Dict X → Result (VehicleIdentity C X)
  identity_from_fingerprints vehicle_id [] revision metadata = err value_error
  identity_from_fingerprints vehicle_id (item ∷ fingerprints) revision metadata = do
    kept ← plates_of (item ∷ fingerprints) []
    let plates = take 16 (sort_signals floats (values kept))
    post_init (record {
      id = vehicle_id;
      primary_plate = first_text plates;
      plates = plates;
      vehicle_type = best_key floats.less (type_scores (item ∷ fingerprints) []);
      color = best_key ltb (color_counts (item ∷ fingerprints) []);
      first_seen_at = earliest item.observed_at fingerprints;
      last_seen_at = latest_of item.observed_at fingerprints;
      observation_count = length (item ∷ fingerprints);
      status = active;
      revision = revision;
      schema_version = 1;
      metadata = metadata;
    })
