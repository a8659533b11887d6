-- ===== src/Tests/IdentityTests.antt =====
-- The identity repository at concrete inputs.
use vehicle_intelligence.Prelude.{
  err, value_error, ◌==◌, ℕ, ◌+◌, ◌≡◌, refl, Str, strip, codes, length, true, false, ltb, none,
  some, List, [], ◌∷◌, ok, arith,
}
use vehicle_intelligence.Persistence.Order.{str_lt}
use vehicle_intelligence.Identities.{
  check_signal, VehicleFingerprint, VehicleIdentity, active, merge_action, Floats, post_init,
}
use vehicle_intelligence.Identities.Aggregates.{identity_from_fingerprints}
use vehicle_intelligence.Identities.Repository.{
  Review, merge_review, IdentityReviewResult, Repository, register_observation,
}
use vehicle_intelligence.Identities.Reviews.{review_merge}
use vehicle_intelligence.Identities.Repeats.{review}
use vehicle_intelligence.Identities.History.{
  Call, register, decide, run, review-run-review, register-run-register,
}
use vehicle_intelligence.Identities.Totals.{IsSummary, aggregate_total}

abbrev floats : Floats ℕ
floats = record { zero = 0; add = λ a b. a + b; less = ltb }

abbrev text : Str → ℕ
text s = length s

abbrev identity : Str → VehicleIdentity ℕ ℕ
identity id = record {
  id = id;
  primary_plate = none;
  plates = [];
  vehicle_type = some (codes "car");
  color = none;
  first_seen_at = 1;
  last_seen_at = 1;
  observation_count = 1;
  status = active;
  revision = 1;
  schema_version = 1;
  metadata = [];
}

abbrev fingerprint : Str → Str → VehicleFingerprint ℕ ℕ
fingerprint id vehicle_id = record {
  id = id;
  vehicle_id = vehicle_id;
  source_event_id = id;
  camera_id = codes "c";
  observed_at = 1;
  vehicle_type = codes "car";
  vehicle_confidence = 9;
  plate = some (codes "P");
  plate_confidence = some 8;
  color = none;
  embedding = 0;
}

abbrev empty : Repository ℕ ℕ
empty = record { identities = []; fingerprints = []; source_events = []; reviews = [] }

-- two vehicles with a fingerprint each
abbrev two : Repository ℕ ℕ
two = record {
  identities = (codes "a", identity (codes "a")) ∷ (codes "b", identity (codes "b")) ∷ [];
  fingerprints =
      (codes "f", fingerprint (codes "f") (codes "a"))
      ∷ (codes "g", fingerprint (codes "g") (codes "b"))
      ∷ [];
  source_events = codes "f" ∷ codes "g" ∷ [];
  reviews = [];
}

abbrev merging : Review
merging = merge_review (record {
  id = codes "r";
  source_vehicle_id = codes "a";
  target_vehicle_id = codes "b";
  expected_source_revision = 1;
  expected_target_revision = 1;
  reviewer_id = codes "u";
  reviewed_at = 5;
  reason = codes "same";
  source_fingerprint_id = none;
  target_fingerprint_id = none;
})

abbrev result : IdentityReviewResult
result = record {
  review_id = codes "r";
  action = merge_action;
  source_vehicle_id = codes "a";
  result_vehicle_id = codes "b";
  moved_fingerprints = 1;
  moved_events = 3;
  reviewed_at = 5;
  idempotent = false;
}

merges : (review floats text merging 3 two).0 ≡ ok result
unfolding ◌==◌ strip review review_merge identity_from_fingerprints post_init str_lt check_signal
merges = refl

abbrev calls : List (Call ℕ ℕ)
calls =
    register (identity (codes "c")) (fingerprint (codes "h") (codes "c")) ∷ decide merging 0 ∷ []

review-run-review_example :
    let later = run floats text calls (review floats text merging 3 two).1 in
    review floats text merging 7 later ≡ (ok (record result { idempotent = true }), later)
review-run-review_example = review-run-review floats text merging 3 7 two calls result merges

registers :
    (register_observation floats
      (identity (codes "c"))
      (fingerprint (codes "h") (codes "c"))
      empty).0
    ≡ ok true
unfolding ◌==◌ register_observation
registers = refl

register-run-register_example :
    let later =
      run floats text calls
        (register_observation floats
          (identity (codes "c"))
          (fingerprint (codes "h") (codes "c"))
          empty).1 in
    register_observation floats (identity (codes "d")) (fingerprint (codes "h") (codes "d")) later
    ≡ (ok false, later)
unfolding ◌==◌
register-run-register_example =
    register-run-register floats text (identity (codes "c")) (identity (codes "d"))
      (fingerprint (codes "h") (codes "c")) (fingerprint (codes "h") (codes "d")) empty calls
      registers refl refl

-- a fingerprint with a blank plate
abbrev blank_plate : VehicleFingerprint ℕ ℕ
blank_plate = record (fingerprint (codes "e") (codes "v")) { plate = some (codes " ") }

blank_plate_raises :
    identity_from_fingerprints floats
      (codes "v")
      (fingerprint (codes "f") (codes "v") ∷ blank_plate ∷ [])
      1
      []
    ≡ err value_error
unfolding strip ◌==◌ identity_from_fingerprints check_signal
blank_plate_raises = refl

aggregate_total_example :
    IsSummary floats false (fingerprint (codes "f") (codes "v") ∷ []) (
      identity_from_fingerprints floats (codes "v") (fingerprint (codes "f") (codes "v") ∷ []) 1 [])
unfolding strip
aggregate_total_example =
    aggregate_total floats (codes "v") (fingerprint (codes "f") (codes "v")) [] 1 [] refl
      (omega arith)
