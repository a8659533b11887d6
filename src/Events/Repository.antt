-- ===== src/Events/Repository.antt =====
-- InMemoryVehicleEventRepository (infrastructure/persistence/memory.py).
use vehicle_intelligence.Prelude.{
  ℕ, ◌+◌, Str, ◌==◌, is_empty, Dict, get, put, contains, values, member, eqb, ltb, leb, not, select,
  take, if◌then◌else◌, Option, none, some, List, [], ◌∷◌, Bool, true, false, ◌&&◌, ◌||◌, Result, ok,
  err, value_error,
}
use vehicle_intelligence.Events.{
  VehicleEvent, PlateEvidence, final_normalized, review_revision, event_type_value, direction_value,
  event_status_value,
}
use vehicle_intelligence.Persistence.Order.{Key}
use vehicle_intelligence.Persistence.Sorting.{newest_first, oldest_first}
use vehicle_intelligence.Persistence.Pages.{Page, list_page}

-- (camera.id, track_id, event_type.value)
pub record SemanticKey : Type 0 where
  pub camera_id : Str
  pub track_id : Str
  pub event_type : Str

unfoldable pub same_key : SemanticKey → SemanticKey → Bool
same_key a b =
    (a.camera_id == b.camera_id) && (a.track_id == b.track_id) && (a.event_type == b.event_type)

-- key in self._semantic_keys
abbrev pub has_key : SemanticKey → List SemanticKey → Bool
has_key k [] = false
has_key k (j ∷ keys) = let rest = has_key k keys in if same_key k j then true else rest

pub record EventQuery : Type 0 where
  pub limit : ℕ
  pub cursor : Option Key
  pub camera_id : Option Str
  pub plate : Option Str
  pub event_type : Option Str
  pub direction : Option Str
  pub status : Option Str
  pub from_time : Option ℕ
  pub to_time : Option ℕ

-- `wanted and value != wanted`: no filter, or an empty one, excludes nothing
abbrev pub excludes : Option Str → Str → Bool
excludes none value = false
excludes (some wanted) value = not (is_empty wanted) && not (value == wanted)

abbrev pub is_before : ℕ → Option ℕ → Bool
is_before time none = false
is_before time (some from_time) = ltb time from_time

abbrev pub is_after : ℕ → Option ℕ → Bool
is_after time none = false
is_after time (some to_time) = ltb to_time time

-- `vehicle_id == wanted` of an optional id
abbrev pub is_vehicle : Option Str → Str → Bool
is_vehicle none wanted = false
is_vehicle (some id) wanted = id == wanted

-- `vehicle_id in {None, wanted}`
abbrev pub is_free_for : Option Str → Str → Bool
is_free_for none wanted = true
is_free_for (some id) wanted = id == wanted

pub record Repository (C X : Type 0) : Type 0 where
  pub events : Dict (VehicleEvent C X)
  pub semantic_keys : List SemanticKey

-- dict.fromkeys(ids): each id once
abbrev pub distinct_ids : List Str → List Str → List Str
distinct_ids seen [] = []
distinct_ids seen (id ∷ ids) =
    let rest = distinct_ids (id ∷ seen) ids in
    let skipped = distinct_ids seen ids in if member id seen then skipped else id ∷ rest

module _ {C X : Type 0} where
  unfoldable pub semantic_key : VehicleEvent C X → SemanticKey
  semantic_key event = record {
    camera_id = event.camera.id;
    track_id = event.track_id;
    event_type = event_type_value event.event_type;
  }

  abbrev pub key_of : VehicleEvent C X → Key
  key_of event = record { time = event.occurred_at; id = event.id }

  unfoldable pub conflicts_with : Repository C X → VehicleEvent C X → Bool
  conflicts_with repository event =
      contains repository.events event.id || has_key (semantic_key event) repository.semantic_keys

  unfoldable pub save : Repository C X → VehicleEvent C X → Bool × Repository C X
  save repository event =
      if contains repository.events event.id
        || has_key (semantic_key event) repository.semantic_keys
      then (false, repository)
      else (
        true,
        record {
          events = put repository.events event.id event;
          semantic_keys = semantic_key event ∷ repository.semantic_keys;
        },
      )

  abbrev pub plate_is : Option (PlateEvidence C X) → Str → Bool
  plate_is none wanted = false
  plate_is (some plate) wanted = final_normalized plate == wanted

  abbrev pub excludes_plate : Option Str → Option (PlateEvidence C X) → Bool
  excludes_plate none plate = false
  excludes_plate (some wanted) plate = not (is_empty wanted) && not (plate_is plate wanted)

  unfoldable pub matches : VehicleEvent C X → EventQuery → Bool
  matches event query = not (
      excludes query.camera_id event.camera.id
      || excludes_plate query.plate event.plate
      || excludes query.event_type (event_type_value event.event_type)
      || excludes query.direction (direction_value event.direction)
      || excludes query.status (event_status_value event.status)
      || is_before event.occurred_at query.from_time
      || is_after event.occurred_at query.to_time)

  unfoldable pub list : Repository C X → EventQuery → Page (VehicleEvent C X)
  list repository query =
      list_page key_of query.limit query.cursor
        (select (λ event. matches event query) (values repository.events))

  unfoldable pub find_by_plate : Repository C X → Str → ℕ → List (VehicleEvent C X)
  find_by_plate repository plate limit = take limit (
      newest_first key_of (select (λ event. plate_is event.plate plate) (values repository.events)))

  unfoldable pub timeline :
      Repository C X → Str → Option ℕ → Option ℕ → ℕ → Bool → Result (List (VehicleEvent C X))
  timeline repository vehicle_id from_time to_time limit ascending =
      let items =
        select
          (λ event.
            is_vehicle event.vehicle_id vehicle_id
            && not (is_before event.occurred_at from_time)
            && not (is_after event.occurred_at to_time))
          (values repository.events) in
      if leb 1 limit && leb limit 5000
      then ok
          (take limit (if ascending then oldest_first key_of items else newest_first key_of items))
      else err value_error

  abbrev pub has_revision : Option (PlateEvidence C X) → ℕ → Bool
  has_revision none revision = false
  has_revision (some plate) revision = eqb (review_revision plate) revision

  abbrev pub stored_has_revision : Option (VehicleEvent C X) → ℕ → Bool
  stored_has_revision none revision = false
  stored_has_revision (some event) revision = has_revision event.plate revision

  unfoldable pub update_plate_review :
      Repository C X → VehicleEvent C X → ℕ → Result (Option (VehicleEvent C X) × Repository C X)
  update_plate_review repository event expected_revision =
      if not (has_revision event.plate (expected_revision + 1))
      then err value_error
      else if stored_has_revision (get repository.events event.id) expected_revision
      then ok (some event, record repository { events = put repository.events event.id event })
      else ok (none, repository)

  abbrev pub stored_is_free_for : Option (VehicleEvent C X) → Str → Bool
  stored_is_free_for none wanted = false
  stored_is_free_for (some event) wanted = is_free_for event.vehicle_id wanted

  abbrev pub with_vehicle : VehicleEvent C X → Str → VehicleEvent C X
  with_vehicle event vehicle_id = record event { vehicle_id = some vehicle_id }

  abbrev pub assigned :
      Option (VehicleEvent C X) → Repository C X → Str → Str → Bool × Repository C X
  assigned none repository event_id vehicle_id = (false, repository)
  assigned (some current) repository event_id vehicle_id =
      if is_free_for current.vehicle_id vehicle_id
      then (
        true,
        record repository {
          events = put repository.events event_id (with_vehicle current vehicle_id);
        },
      )
      else (false, repository)

  unfoldable pub assign_vehicle_id : Repository C X → Str → Str → Bool × Repository C X
  assign_vehicle_id repository event_id vehicle_id =
      assigned (get repository.events event_id) repository event_id vehicle_id

  -- one round of the loop: the number that moved, and the events
  abbrev pub moved :
      Option (VehicleEvent C X)
      → Dict (VehicleEvent C X)
      → Str
      → Str
      → Str
      → ℕ × Dict (VehicleEvent C X)
  moved none events event_id source target = (0, events)
  moved (some current) events event_id source target =
      if is_vehicle current.vehicle_id source
      then (1, put events event_id (with_vehicle current target))
      else (0, events)

  abbrev pub move_all :
      List Str → Str → Str → ℕ × Dict (VehicleEvent C X) → ℕ × Dict (VehicleEvent C X)
  move_all [] source target state = state
  move_all (event_id ∷ ids) source target (count, events) =
      let step = moved (get events event_id) events event_id source target in
      move_all ids source target (count + step.0, step.1)

  unfoldable pub reassign_vehicle_ids : Repository C X → List Str → Str → Str → ℕ × Repository C X
  reassign_vehicle_ids repository event_ids source target =
      let done = move_all (distinct_ids [] event_ids) source target (0, repository.events) in
      (done.0, record repository { events = done.1 })
