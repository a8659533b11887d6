-- ===== src/Events/History.antt =====
-- Sequences of the calls that change the event repository. HumanPlateReviewService.review
-- (application/review.py) reads an event and writes it in separate calls of the repository, with those
-- of other tasks in between: they are two operations, and the events that reviews have read are kept
-- beside the repository.
use vehicle_intelligence.Prelude.{
  ℕ, zero, suc, ◌+◌, ◌≡◌, ◌∙◌, ap, sym, arith, refl, max, eqb, if◌then◌else◌, Str, get, get_elem?,
  Option, none, some, List, [], ◌∷◌, ◌++◌, All, Bool-cases, inl, inr,
}
use vehicle_intelligence.Events.{
  VehicleEvent, PlateEvidence, PlateReview, confirmed, review_revision,
}
use vehicle_intelligence.Events.Repository.{
  semantic_key, Repository, save, update_plate_review, assign_vehicle_id, reassign_vehicle_ids,
  distinct_ids,
}
use vehicle_intelligence.Events.Identifiers.{
  IsIndexed, IsExtended, IsExtended-refl, IsExtended-compose,
}
use vehicle_intelligence.Events.Preservation.{
  IsStep, stays-IsStep, save-IsStep, update-IsStep, after_review, assign-IsStep, move_all-IsStep,
}

pub data Operation (C X : Type 0) : Type 0 where
  save_event : VehicleEvent C X → Operation C X
  read_event : Str → Operation C X
  -- the position of the event among those read, expected_revision, and the review but for its revision
  write_review : ℕ → ℕ → PlateReview → Operation C X
  assign : Str → Str → Operation C X
  reassign : List Str → Str → Str → Operation C X

-- the repository, and the events that reviews have read, in that order
pub record Reviewed (C X : Type 0) : Type 0 where
  pub repository : Repository C X
  pub read_events : List (VehicleEvent C X)

module _ {C X : Type 0} where
  -- `replace(current, …)` of `review`
  unfoldable pub reviewed :
      VehicleEvent C X → PlateEvidence C X → ℕ → PlateReview → VehicleEvent C X
  reviewed current plate expected_revision review = record current {
    schema_version = max 2 current.schema_version;
    status = confirmed;
    plate =
        some (record plate { review = some (record review { revision = expected_revision + 1 }) });
  }

  -- What `review` does with the event that it has read: an event without a plate is refused, one with
  -- another revision is the case of a retry, which leaves the events alone.
  unfoldable pub review_plate :
      Option (PlateEvidence C X)
      → VehicleEvent C X
      → ℕ
      → PlateReview
      → Repository C X
      → Repository C X
  review_plate none current expected_revision review r = r
  review_plate (some plate) current expected_revision review r =
      if eqb (review_revision plate) expected_revision
      then after_review r (
          update_plate_review r (reviewed current plate expected_revision review) expected_revision)
      else r

  abbrev pub reading : Option (VehicleEvent C X) → List (VehicleEvent C X) → List (VehicleEvent C X)
  reading none events = events
  reading (some event) events = events ++ event ∷ []

  abbrev pub review_of :
      Option (VehicleEvent C X) → ℕ → PlateReview → Repository C X → Repository C X
  review_of none expected_revision review r = r
  review_of (some current) expected_revision review r =
      review_plate current.plate current expected_revision review r

  -- the repository after a call, and what reviews have read
  unfoldable pub apply : Operation C X → Reviewed C X → Reviewed C X
  apply (save_event event) s = record s { repository = (save s.repository event).1 }
  apply (read_event event_id) s = record s {
    read_events = reading (get s.repository.events event_id) s.read_events;
  }
  apply (write_review position expected_revision review) s = record s {
    repository = review_of (get_elem? s.read_events position) expected_revision review s.repository;
  }
  apply (assign event_id vehicle_id) s = record s {
    repository = (assign_vehicle_id s.repository event_id vehicle_id).1;
  }
  apply (reassign ids source target) s = record s {
    repository = (reassign_vehicle_ids s.repository ids source target).1;
  }

  unfoldable pub run : List (Operation C X) → Reviewed C X → Reviewed C X
  run [] s = s
  run (o ∷ os) s = run os (apply o s)

  abbrev pub empty : Reviewed C X
  empty = record { repository = record { events = []; semantic_keys = [] }; read_events = [] }

  -- The event was read: the store has one with its id and key.
  abbrev IsKnown : Repository C X → VehicleEvent C X → Type 0
  IsKnown r c =
      (e : VehicleEvent C X) × (get r.events c.id ≡ some e) × (semantic_key e ≡ semantic_key c)

  -- A repository that is indexed, and the events that were read from it.
  record IsReviewed (s : Reviewed C X) : Type 0 where
    indexed : IsIndexed s.repository.events s.repository.semantic_keys
    known : All (IsKnown s.repository) s.read_events

  IsKnown-kept :
      (before after : Repository C X) (xs : List (VehicleEvent C X))
      → IsExtended before.events after.events
      → All (IsKnown before) xs
      → All (IsKnown after) xs
  IsKnown-kept before after [] h known = tt
  IsKnown-kept before after (c ∷ xs) h ((e, at, same), known) =
      let (f, at', same') = h c.id e at in
      ((f, at', same' ∙ same), IsKnown-kept before after xs h known)

  reading-IsKnown :
      (r : Repository C X) (o : Option (VehicleEvent C X)) (event_id : Str)
      (xs : List (VehicleEvent C X))
      → IsIndexed r.events r.semantic_keys
      → get r.events event_id ≡ o
      → All (IsKnown r) xs
      → All (IsKnown r) (reading o xs)
  reading-IsKnown r none event_id xs h at known = known
  reading-IsKnown r (some event) event_id [] h at known =
      ((event, ap (get r.events) (h.kept event_id event at).0 ∙ at, refl), tt)
  reading-IsKnown r (some event) event_id (x ∷ xs) h at known =
      (known.0, reading-IsKnown r (some event) event_id xs h at known.1)

  review_plate-IsStep :
      (plate : Option (PlateEvidence C X)) (current : VehicleEvent C X) (expected_revision : ℕ)
      (review : PlateReview) (r : Repository C X)
      → IsIndexed r.events r.semantic_keys
      → IsKnown r current
      → IsStep r (review_plate plate current expected_revision review r)
  unfolding reviewed semantic_key review_plate
  review_plate-IsStep none current expected_revision review r h known = stays-IsStep r h
  review_plate-IsStep (some plate) current expected_revision review r h (e, at, same) =
      elim (Bool-cases (eqb (review_revision plate) expected_revision)) [
        | inr retried ↦ rw retried (stays-IsStep r h)
        | inl fits ↦ rw fits (
            update-IsStep r e (reviewed current plate expected_revision review) expected_revision h
              at (sym same))
      ]

  review_of-IsStep :
      (xs : List (VehicleEvent C X)) (position expected_revision : ℕ) (review : PlateReview)
      (r : Repository C X)
      → IsIndexed r.events r.semantic_keys
      → All (IsKnown r) xs
      → IsStep r (review_of (get_elem? xs position) expected_revision review r)
  review_of-IsStep [] position expected_revision review r h known = stays-IsStep r h
  review_of-IsStep (x ∷ xs) zero expected_revision review r h known =
      review_plate-IsStep x.plate x expected_revision review r h known.0
  review_of-IsStep (x ∷ xs) (suc position) expected_revision review r h known =
      review_of-IsStep xs position expected_revision review r h known.1

  apply-IsStep :
      (o : Operation C X) (s : Reviewed C X)
      → IsReviewed s
      → IsStep s.repository (apply o s).repository
  unfolding apply reassign_vehicle_ids
  apply-IsStep (save_event event) s h = save-IsStep s.repository event h.indexed
  apply-IsStep (read_event event_id) s h = stays-IsStep s.repository h.indexed
  apply-IsStep (write_review position expected_revision review) s h =
      review_of-IsStep s.read_events position expected_revision review s.repository h.indexed
        h.known
  apply-IsStep (assign event_id vehicle_id) s h =
      assign-IsStep s.repository event_id vehicle_id h.indexed
  apply-IsStep (reassign ids source target) s h =
      move_all-IsStep (distinct_ids [] ids) source target 0 s.repository h.indexed

  apply-IsKnown :
      (o : Operation C X) (s : Reviewed C X)
      → IsReviewed s
      → All (IsKnown (apply o s).repository) (apply o s).read_events
  unfolding apply
  apply-IsKnown (read_event event_id) s h =
      reading-IsKnown s.repository (get s.repository.events event_id) event_id s.read_events
        h.indexed refl h.known
  apply-IsKnown (save_event event) s h =
      IsKnown-kept s.repository (apply (save_event event) s).repository s.read_events
        (apply-IsStep (save_event event) s h).extended h.known
  apply-IsKnown (write_review position expected_revision review) s h =
      IsKnown-kept s.repository
        (apply (write_review position expected_revision review) s).repository s.read_events
        (apply-IsStep (write_review position expected_revision review) s h).extended h.known
  apply-IsKnown (assign event_id vehicle_id) s h =
      IsKnown-kept s.repository (apply (assign event_id vehicle_id) s).repository s.read_events
        (apply-IsStep (assign event_id vehicle_id) s h).extended h.known
  apply-IsKnown (reassign ids source target) s h =
      IsKnown-kept s.repository (apply (reassign ids source target) s).repository s.read_events
        (apply-IsStep (reassign ids source target) s h).extended h.known

  run-IsReviewed :
      (os : List (Operation C X)) (s : Reviewed C X)
      → IsReviewed s
      → IsReviewed (run os s) × IsExtended s.repository.events (run os s).repository.events
  unfolding run
  run-IsReviewed [] s h = (h, IsExtended-refl s.repository.events)
  run-IsReviewed (o ∷ os) s h =
      let step = apply-IsStep o s h in
      let later =
        run-IsReviewed os (apply o s)
          (record { indexed = step.indexed; known = apply-IsKnown o s h }) in
      (later.0, IsExtended-compose _ _ _ step.extended later.1)

  empty-IsReviewed : IsReviewed empty
  empty-IsReviewed = record {
    indexed = record {
      kept = λ k e h. ground arith;
      unique = λ k j e f h₁ h₂ same. ground arith;
      owned = λ key listed. ground (arith, listed);
    };
    known = tt;
  }

  -- After any sequence of saves, reads and writes of plate reviews, assignments and reassignments on an
  -- empty repository, each event stands under its own id, its key of camera, track and type is
  -- indexed, no two stored events have the same key, and each key of the index is that of a stored
  -- event. After any further such calls each event is still stored under its id, with its key.
  pub run-IsIndexed :
      (os more : List (Operation C X))
      → IsIndexed (run os empty).repository.events (run os empty).repository.semantic_keys
        × IsExtended (run os empty).repository.events (run more (run os empty)).repository.events
  run-IsIndexed os more =
      let first = run-IsReviewed os empty empty-IsReviewed in
      (first.0.indexed, (run-IsReviewed more (run os empty) first.0).1)
