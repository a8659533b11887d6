-- ===== src/Events.antt =====
-- Vehicle events as they are kept: domain/events.py with the enums that it uses.
-- A timestamp is an aware instant, in microseconds. C stands for floats, with the test that one is
-- in [0, 1]; X for what the modelled code only carries (corrections, AI trace, metadata).
pub mod Repository
pub mod Identifiers
pub mod Preservation
pub mod History
use vehicle_intelligence.Prelude.{
  ℕ, Str, codes, strip, is_empty, length, ltb, not, if◌then◌else◌, Option, none, some, is_some,
  Bool, true, false, ◌&&◌, ◌||◌, Result, ok, err, value_error,
}

pub data Direction : Type 0 where
  enter exit unknown : Direction

pub data EventType : Type 0 where
  vehicle_enter vehicle_exit vehicle_detected : EventType

pub data EventStatus : Type 0 where
  confirmed low_confidence needs_review no_plate unreadable : EventStatus

abbrev pub direction_value : Direction → Str
direction_value enter = codes "ENTER"
direction_value exit = codes "EXIT"
direction_value unknown = codes "UNKNOWN"

abbrev pub event_type_value : EventType → Str
event_type_value vehicle_enter = codes "VEHICLE_ENTER"
event_type_value vehicle_exit = codes "VEHICLE_EXIT"
event_type_value vehicle_detected = codes "VEHICLE_DETECTED"

abbrev pub event_status_value : EventStatus → Str
event_status_value confirmed = codes "CONFIRMED"
event_status_value low_confidence = codes "LOW_CONFIDENCE"
event_status_value needs_review = codes "NEEDS_REVIEW"
event_status_value no_plate = codes "NO_PLATE"
event_status_value unreadable = codes "UNREADABLE"

pub record CameraSnapshot : Type 0 where
  pub id : Str
  pub name : Str
  pub zone : Option Str

pub record PlateReview : Type 0 where
  pub normalized : Str
  pub revision : ℕ
  pub reviewed_at : ℕ
  pub reviewed_by : Str
  pub reviewer_display_name : Str
  pub note : Option Str

pub record PlateEvidence (C X : Type 0) : Type 0 where
  pub raw : Str
  pub normalized : Str
  pub confidence : C
  pub observation_count : ℕ
  pub corrections : X
  pub review : Option PlateReview
  pub partial : Bool

pub record VehicleEvidence (C : Type 0) : Type 0 where
  pub type : Str
  pub confidence : C
  pub color : Option Str

pub record MediaReferences : Type 0 where
  pub snapshot_key : Option Str
  pub vehicle_crop_key : Option Str
  pub plate_crop_key : Option Str
  pub clip_key : Option Str

pub record VehicleEvent (C X : Type 0) : Type 0 where
  pub id : Str
  pub schema_version : ℕ
  pub camera : CameraSnapshot
  pub track_id : Str
  pub event_type : EventType
  pub occurred_at : ℕ
  pub created_at : ℕ
  pub direction : Direction
  pub status : EventStatus
  pub vehicle : VehicleEvidence C
  pub plate : Option (PlateEvidence C X)
  pub media : MediaReferences
  pub ai : X
  pub vehicle_id : Option Str
  pub metadata : X

abbrev is_too_long : Option Str → Bool
is_too_long none = false
is_too_long (some note) = ltb 500 (length note)

-- PlateReview.__post_init__
unfoldable pub review_post_init : PlateReview → Result PlateReview
review_post_init r =
    if is_empty (strip r.normalized)
      || ltb r.revision 1
      || is_empty (strip r.reviewed_by)
      || is_empty (strip r.reviewer_display_name)
      || is_too_long r.note
    then err value_error
    else ok r

abbrev pub final_of : Str → Option PlateReview → Str
final_of read none = read
final_of read (some review) = review.normalized

abbrev revision_of : Option PlateReview → ℕ
revision_of none = 0
revision_of (some review) = review.revision

module _ {C X : Type 0} where
  unfoldable pub final_normalized : PlateEvidence C X → Str
  final_normalized plate = final_of plate.normalized plate.review

  unfoldable pub review_revision : PlateEvidence C X → ℕ
  review_revision plate = revision_of plate.review

  abbrev is_reviewed : Option (PlateEvidence C X) → Bool
  is_reviewed none = false
  is_reviewed (some plate) = is_some plate.review

  module _ (in_unit : C → Bool) where
    abbrev is_confident : Option (PlateEvidence C X) → Bool
    is_confident none = true
    is_confident (some plate) = in_unit plate.confidence

    -- VehicleEvent.__post_init__
    unfoldable pub event_post_init : VehicleEvent C X → Result (VehicleEvent C X)
    event_post_init e =
        if is_empty e.id
          || is_empty e.track_id
          || ltb e.schema_version 1
          || not (in_unit e.vehicle.confidence)
          || not (is_confident e.plate)
          || (is_reviewed e.plate && ltb e.schema_version 2)
        then err value_error
        else ok e
