-- ===== src/Identities/Reviews.antt =====
-- review_merge and review_split of InMemoryVehicleIdentityRepository.
use vehicle_intelligence.Prelude.{
  ℕ, ◌+◌, Str, codes, length, eqb, if◌then◌else◌, Option, none, some, List, [], ◌++◌, false, ◌||◌,
  not, get, put, contains, member, select, Result, ok, err, identity_conflict, identity_not_found,
}
use vehicle_intelligence.Identities.{
  VehicleFingerprint, VehicleIdentity, merged, is_active, merge_action, split_action, Floats,
  post_init,
}
use vehicle_intelligence.Identities.Aggregates.{identity_from_fingerprints}
use vehicle_intelligence.Identities.Repository.{
  IdentityMergeReview, IdentitySplitReview, merge_review, split_review, IdentityReviewResult,
  Repository, reviewed_before, moved_to, put_each, fingerprints_of, is_none,
}

-- text: a str as a metadata value
module _ {C X : Type 0} (floats : Floats C) (text : Str → X) where
  -- the writes of a merge, once both identities are built
  abbrev pub commit_merge :
      IdentityMergeReview
      → ℕ
      → VehicleIdentity C X
      → VehicleIdentity C X
      → List (VehicleFingerprint C X)
      → Result (VehicleIdentity C X)
      → Result (VehicleIdentity C X)
      → Repository C X
      → Result IdentityReviewResult × Repository C X
  commit_merge review moved_events source target moved (err x) merged_source r = (err x, r)
  commit_merge review moved_events source target moved (ok joined) (err x) r = (err x, r)
  commit_merge review moved_events source target moved (ok joined) (ok merged_source) r =
      let result : IdentityReviewResult = record {
        review_id = review.id;
        action = merge_action;
        source_vehicle_id = source.id;
        result_vehicle_id = target.id;
        moved_fingerprints = length moved;
        moved_events = moved_events;
        reviewed_at = review.reviewed_at;
        idempotent = false;
      } in
      (
        ok result,
        record r {
          fingerprints = put_each moved r.fingerprints;
          identities = put (put r.identities target.id joined) source.id merged_source;
          reviews = put r.reviews review.id (merge_review review, result);
        },
      )

  abbrev pub merge_found :
      IdentityMergeReview
      → ℕ
      → VehicleIdentity C X
      → VehicleIdentity C X
      → Repository C X
      → Result IdentityReviewResult × Repository C X
  merge_found review moved_events source target r =
      let source_fingerprints = fingerprints_of source.id r.fingerprints in
      let target_fingerprints = fingerprints_of target.id r.fingerprints in
      if not (is_active source.status) || not (is_active target.status)
      then (err identity_conflict, r)
      else if not (eqb source.revision review.expected_source_revision)
          || not (eqb target.revision review.expected_target_revision)
      then (err identity_conflict, r)
      else if is_none source_fingerprints || is_none target_fingerprints
      then (err identity_conflict, r)
      else commit_merge review moved_events source target (moved_to target.id source_fingerprints)
          (identity_from_fingerprints floats target.id
            (target_fingerprints ++ moved_to target.id source_fingerprints) (target.revision + 1)
            target.metadata)
          (post_init (record source {
            status = merged;
            revision = source.revision + 1;
            metadata =
                put (put source.metadata (codes "mergedInto") (text target.id)) (codes "reviewId")
                  (text review.id);
          }))
          r

  abbrev pub merge_both :
      Option (VehicleIdentity C X)
      → Option (VehicleIdentity C X)
      → IdentityMergeReview
      → ℕ
      → Repository C X
      → Result IdentityReviewResult × Repository C X
  merge_both none target review moved_events r = (err identity_not_found, r)
  merge_both (some source) none review moved_events r = (err identity_not_found, r)
  merge_both (some source) (some target) review moved_events r =
      merge_found review moved_events source target r

  unfoldable pub review_merge :
      IdentityMergeReview → ℕ → Repository C X → Result IdentityReviewResult × Repository C X
  review_merge review moved_events r = elim (get r.reviews review.id) [
    | some prior ↦ (reviewed_before prior (merge_review review), r)
    | none ↦
        merge_both (get r.identities review.source_vehicle_id)
          (get r.identities review.target_vehicle_id) review moved_events r
  ]

  abbrev pub commit_split :
      IdentitySplitReview
      → ℕ
      → VehicleIdentity C X
      → List (VehicleFingerprint C X)
      → Result (VehicleIdentity C X)
      → Result (VehicleIdentity C X)
      → Repository C X
      → Result IdentityReviewResult × Repository C X
  commit_split review moved_events source moved (err x) created r = (err x, r)
  -- the source is stored before the new identity is built
  commit_split review moved_events source moved (ok left) (err x) r =
      (err x, record r { identities = put r.identities source.id left })
  commit_split review moved_events source moved (ok left) (ok created) r =
      let result : IdentityReviewResult = record {
        review_id = review.id;
        action = split_action;
        source_vehicle_id = source.id;
        result_vehicle_id = review.new_vehicle_id;
        moved_fingerprints = length moved;
        moved_events = moved_events;
        reviewed_at = review.reviewed_at;
        idempotent = false;
      } in
      (
        ok result,
        record r {
          identities = put (put r.identities source.id left) review.new_vehicle_id created;
          fingerprints = put_each moved r.fingerprints;
          reviews = put r.reviews review.id (split_review review, result);
        },
      )

  -- set(review.fingerprint_ids), whose elements differ by the check of the review
  abbrev pub split_found :
      IdentitySplitReview
      → ℕ
      → VehicleIdentity C X
      → Repository C X
      → Result IdentityReviewResult × Repository C X
  split_found review moved_events source r =
      let all_fingerprints = fingerprints_of source.id r.fingerprints in
      let selected = select (λ item. member item.id review.fingerprint_ids) all_fingerprints in
      let remaining =
        select (λ item. not (member item.id review.fingerprint_ids)) all_fingerprints in
      if not (is_active source.status)
      then (err identity_conflict, r)
      else if not (eqb source.revision review.expected_source_revision)
      then (err identity_conflict, r)
      else if contains r.identities review.new_vehicle_id
      then (err identity_conflict, r)
      else if not (eqb (length selected) (length review.fingerprint_ids))
      then (err identity_conflict, r)
      else if is_none remaining
      then (err identity_conflict, r)
      else commit_split review moved_events source (moved_to review.new_vehicle_id selected)
          (identity_from_fingerprints floats source.id remaining (source.revision + 1)
            (put source.metadata (codes "lastSplitReviewId") (text review.id)))
          (identity_from_fingerprints floats review.new_vehicle_id
            (moved_to review.new_vehicle_id selected) 1
            (put (put [] (codes "splitFrom") (text source.id)) (codes "reviewId") (text review.id)))
          r

  unfoldable pub review_split :
      IdentitySplitReview → ℕ → Repository C X → Result IdentityReviewResult × Repository C X
  review_split review moved_events r = elim (get r.reviews review.id) [
    | some prior ↦ (reviewed_before prior (split_review review), r)
    | none ↦ elim (get r.identities review.source_vehicle_id) [
      | none ↦ (err identity_not_found, r)
      | some source ↦ split_found review moved_events source r
    ]
  ]
