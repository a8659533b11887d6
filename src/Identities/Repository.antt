-- ===== src/Identities/Repository.antt =====
-- InMemoryVehicleIdentityRepository: the identities, their fingerprints and the reviews.
use vehicle_intelligence.Prelude.{
  ℕ, Str, ◌==◌, eqb, if◌then◌else◌, Option, none, some, List, [], ◌∷◌, ◌++◌, Bool, true, false,
  ◌&&◌, ◌||◌, not, Dict, get, put, contains, values, member, select, Result, ok, err, value_error,
  identity_conflict,
}
use vehicle_intelligence.Persistence.Order.{str_lt}
use vehicle_intelligence.Identities.{
  VehicleFingerprint, VehicleIdentity, IdentityReviewAction, Floats, merge_identity,
}

pub record IdentityMergeReview : Type 0 where
  pub id : Str
  pub source_vehicle_id : Str
  pub target_vehicle_id : Str
  pub expected_source_revision : ℕ
  pub expected_target_revision : ℕ
  pub reviewer_id : Str
  pub reviewed_at : ℕ
  pub reason : Str
  pub source_fingerprint_id : Option Str
  pub target_fingerprint_id : Option Str

pub record IdentitySplitReview : Type 0 where
  pub id : Str
  pub source_vehicle_id : Str
  pub new_vehicle_id : Str
  pub fingerprint_ids : List Str
  pub expected_source_revision : ℕ
  pub reviewer_id : Str
  pub reviewed_at : ℕ
  pub reason : Str

pub data Review : Type 0 where
  merge_review : IdentityMergeReview → Review
  split_review : IdentitySplitReview → Review

pub record IdentityReviewResult : Type 0 where
  pub review_id : Str
  pub action : IdentityReviewAction
  pub source_vehicle_id : Str
  pub result_vehicle_id : Str
  pub moved_fingerprints : ℕ
  pub moved_events : ℕ
  pub reviewed_at : ℕ
  pub idempotent : Bool

pub record Repository (C X : Type 0) : Type 0 where
  pub identities : Dict (VehicleIdentity C X)
  pub fingerprints : Dict (VehicleFingerprint C X)
  pub source_events : List Str
  pub reviews : Dict (Review × IdentityReviewResult)

abbrev pub insert_text : Str → List Str → List Str
insert_text x [] = x ∷ []
insert_text x (y ∷ ys) =
    let later = insert_text x ys in if str_lt y x then y ∷ later else x ∷ y ∷ ys

-- sorted(fingerprint_ids)
abbrev pub sort_texts : List Str → List Str
sort_texts [] = []
sort_texts (x ∷ xs) = insert_text x (sort_texts xs)

abbrev pub same_texts : List Str → List Str → Bool
same_texts [] [] = true
same_texts [] (y ∷ ys) = false
same_texts (x ∷ xs) [] = false
same_texts (x ∷ xs) (y ∷ ys) = let rest = same_texts xs ys in if x == y then rest else false

abbrev pub same_option : Option Str → Option Str → Bool
same_option none none = true
same_option none (some y) = false
same_option (some x) none = false
same_option (some x) (some y) = x == y

-- _review_request_key(a) == _review_request_key(b)
unfoldable pub same_request : Review → Review → Bool
same_request (merge_review a) (merge_review b) =
    a.source_vehicle_id == b.source_vehicle_id
    && a.target_vehicle_id == b.target_vehicle_id
    && eqb a.expected_source_revision b.expected_source_revision
    && eqb a.expected_target_revision b.expected_target_revision
    && a.reviewer_id == b.reviewer_id
    && a.reason == b.reason
    && same_option a.source_fingerprint_id b.source_fingerprint_id
    && same_option a.target_fingerprint_id b.target_fingerprint_id
same_request (merge_review a) (split_review b) = false
same_request (split_review a) (merge_review b) = false
same_request (split_review a) (split_review b) =
    a.source_vehicle_id == b.source_vehicle_id
    && a.new_vehicle_id == b.new_vehicle_id
    && eqb a.expected_source_revision b.expected_source_revision
    && a.reviewer_id == b.reviewer_id
    && a.reason == b.reason
    && same_texts (sort_texts a.fingerprint_ids) (sort_texts b.fingerprint_ids)

-- the answer to a review whose id is known
unfoldable pub reviewed_before :
    Review × IdentityReviewResult → Review → Result IdentityReviewResult
reviewed_before prior review =
    if same_request prior.0 review
    then ok (record prior.1 { idempotent = true })
    else err identity_conflict

module _ {C X : Type 0} where
  abbrev pub moved_to : Str → List (VehicleFingerprint C X) → List (VehicleFingerprint C X)
  moved_to vehicle_id [] = []
  moved_to vehicle_id (item ∷ fingerprints) =
      record item { vehicle_id = vehicle_id } ∷ moved_to vehicle_id fingerprints

  abbrev pub put_each :
      List (VehicleFingerprint C X) → Dict (VehicleFingerprint C X) → Dict (VehicleFingerprint C X)
  put_each [] kept = kept
  put_each (item ∷ fingerprints) kept = put_each fingerprints (put kept item.id item)

  abbrev pub fingerprints_of : Str → Dict (VehicleFingerprint C X) → List (VehicleFingerprint C X)
  fingerprints_of vehicle_id kept = select (λ item. item.vehicle_id == vehicle_id) (values kept)

  abbrev pub is_none : List (VehicleFingerprint C X) → Bool
  is_none [] = true
  is_none (item ∷ fingerprints) = false

module _ {C X : Type 0} (floats : Floats C) where
  -- self._identities.get(identity.id), then what to store
  abbrev pub observed :
      Option (VehicleIdentity C X) → VehicleIdentity C X → Result (VehicleIdentity C X)
  observed none identity = ok identity
  observed (some current) identity = merge_identity floats current identity

  abbrev pub stored :
      Result (VehicleIdentity C X)
      → VehicleFingerprint C X
      → Repository C X
      → Result Bool × Repository C X
  stored (err x) fingerprint r = (err x, r)
  stored (ok identity) fingerprint r = (
    ok true,
    record r {
      identities = put r.identities identity.id identity;
      fingerprints = put r.fingerprints fingerprint.id fingerprint;
      source_events =
          if member fingerprint.source_event_id r.source_events
          then r.source_events
          else r.source_events ++ fingerprint.source_event_id ∷ [];
    },
  )

  unfoldable pub register_observation :
      VehicleIdentity C X → VehicleFingerprint C X → Repository C X → Result Bool × Repository C X
  register_observation identity fingerprint r =
      if not (identity.id == fingerprint.vehicle_id)
      then (err value_error, r)
      else if contains r.fingerprints fingerprint.id
          || member fingerprint.source_event_id r.source_events
      then (ok false, r)
      else stored (observed (get r.identities identity.id) identity) fingerprint r
