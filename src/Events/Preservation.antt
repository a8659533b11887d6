-- ===== src/Events/Preservation.antt =====
-- The operations of the event repository keep its index, and remove no event.
use vehicle_intelligence.Prelude.{
  ℕ, ◌+◌, ◌≡◌, refl, sym, Str, get, put, contains, Option, some, List, [], ◌∷◌, Bool-cases,
  Option-cases, inl, inr, Result, ok, err,
}
use vehicle_intelligence.Events.{VehicleEvent}
use vehicle_intelligence.Events.Repository.{
  has_key, Repository, semantic_key, save, is_vehicle, is_free_for, with_vehicle, moved, move_all,
  assign_vehicle_id, update_plate_review, has_revision,
}
use vehicle_intelligence.Events.Identifiers.{
  IsIndexed, IsExtended, IsExtended-refl, IsExtended-compose, put-IsExtended_same,
  put-IsExtended_new, put-IsIndexed_same, put-IsIndexed_new,
}

module _ {C X : Type 0} where
  -- A step from an indexed repository: the later one is indexed, and has all its events.
  pub record IsStep (before after : Repository C X) : Type 0 where
    pub indexed : IsIndexed after.events after.semantic_keys
    pub extended : IsExtended before.events after.events

  pub stays-IsStep : (r : Repository C X) → IsIndexed r.events r.semantic_keys → IsStep r r
  stays-IsStep r h = record { indexed = h; extended = IsExtended-refl r.events }

  -- an event is replaced by one with the same id and key
  pub put-IsStep :
      (r : Repository C X) (k : Str) (old new : VehicleEvent C X)
      → IsIndexed r.events r.semantic_keys
      → get r.events k ≡ some old
      → new.id ≡ old.id
      → semantic_key new ≡ semantic_key old
      → IsStep r (record r { events = put r.events k new })
  put-IsStep r k old new h found same_id same = record {
    indexed = put-IsIndexed_same r.events r.semantic_keys k old new h found same_id same;
    extended = put-IsExtended_same r.events k old new found same;
  }

  pub save-IsStep :
      (r : Repository C X) (event : VehicleEvent C X)
      → IsIndexed r.events r.semantic_keys
      → IsStep r (save r event).1
  unfolding save
  save-IsStep r event h = elim (Bool-cases (contains r.events event.id)) [
    | inl known ↦ rw known (stays-IsStep r h)
    | inr fresh ↦ elim (Bool-cases (has_key (semantic_key event) r.semantic_keys)) [
      | inl listed ↦ rw (fresh, listed) (stays-IsStep r h)
      | inr unlisted ↦
          rw (fresh, unlisted)
            (record {
              indexed = put-IsIndexed_new r.events r.semantic_keys event h fresh unlisted;
              extended = put-IsExtended_new r.events event fresh;
            })
    ]
  ]

  moved-IsStep :
      (r : Repository C X) (event_id source target : Str)
      → IsIndexed r.events r.semantic_keys
      → IsStep r
          (record r { events = (moved (get r.events event_id) r.events event_id source target).1 })
  unfolding semantic_key
  moved-IsStep r event_id source target h = elim (Option-cases (get r.events event_id)) [
    | inl absent ↦ rw absent (stays-IsStep r h)
    | inr (current, found) ↦ elim (Bool-cases (is_vehicle current.vehicle_id source)) [
      | inl of_source ↦
          rw (found, of_source)
            (put-IsStep r event_id current (with_vehicle current target) h found refl refl)
      | inr other ↦ rw (found, other) (stays-IsStep r h)
    ]
  ]

  pub move_all-IsStep :
      (ids : List Str) (source target : Str) (count : ℕ) (r : Repository C X)
      → IsIndexed r.events r.semantic_keys
      → IsStep r (record r { events = (move_all ids source target (count, r.events)).1 })
  move_all-IsStep [] source target count r h = stays-IsStep r h
  move_all-IsStep (event_id ∷ ids) source target count r h =
      let first = moved-IsStep r event_id source target h in
      let rest =
        move_all-IsStep ids source target
          (count + (moved (get r.events event_id) r.events event_id source target).0)
          (record r { events = (moved (get r.events event_id) r.events event_id source target).1 })
          first.indexed in
      record {
        indexed = rest.indexed;
        extended = IsExtended-compose _ _ _ first.extended rest.extended;
      }

  pub assign-IsStep :
      (r : Repository C X) (event_id vehicle_id : Str)
      → IsIndexed r.events r.semantic_keys
      → IsStep r (assign_vehicle_id r event_id vehicle_id).1
  unfolding semantic_key assign_vehicle_id
  assign-IsStep r event_id vehicle_id h = elim (Option-cases (get r.events event_id)) [
    | inl absent ↦ rw absent (stays-IsStep r h)
    | inr (current, found) ↦ elim (Bool-cases (is_free_for current.vehicle_id vehicle_id)) [
      | inl free ↦
          rw (found, free)
            (put-IsStep r event_id current (with_vehicle current vehicle_id) h found refl refl)
      | inr other ↦ rw (found, other) (stays-IsStep r h)
    ]
  ]

  -- the repository after `update_plate_review`, also if it raises
  abbrev pub after_review :
      Repository C X → Result (Option (VehicleEvent C X) × Repository C X) → Repository C X
  after_review r (ok (event, r')) = r'
  after_review r (err e) = r

  pub update-IsStep :
      (r : Repository C X) (old new : VehicleEvent C X) (revision : ℕ)
      → IsIndexed r.events r.semantic_keys
      → get r.events new.id ≡ some old
      → semantic_key new ≡ semantic_key old
      → IsStep r (after_review r (update_plate_review r new revision))
  unfolding update_plate_review
  update-IsStep r old new revision h found same =
      elim (Bool-cases (has_revision new.plate (revision + 1))) [
        | inr wrong ↦ rw wrong (stays-IsStep r h)
        | inl next ↦ elim (Bool-cases (has_revision old.plate revision)) [
          | inr stale ↦ rw (next, found, stale) (stays-IsStep r h)
          | inl current ↦
              rw (next, found, current)
                (put-IsStep r new.id old new h found (sym (h.kept new.id old found).0) same)
        ]
      ]
