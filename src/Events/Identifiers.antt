-- ===== src/Events/Identifiers.antt =====
-- The ids and the idempotency keys of the stored events.
use vehicle_intelligence.Prelude.{
  ◌==◌, eq_iff, get-put, get-put_self, some_injective, is_some, ◌≡◌, ◌≢◌, refl, sym, ap, ◌∙◌, Str,
  eq_refl, Dict, get, put, contains, put-cases, some, List, ◌∷◌, true, false, arith, Bool-cases,
  inl, inr,
}
use mathlib.Core.Path.{subst}
use vehicle_intelligence.Events.{VehicleEvent}
use vehicle_intelligence.Events.Repository.{SemanticKey, same_key, has_key, semantic_key}

same_key_refl : (k : SemanticKey) → same_key k k ≡ true
unfolding same_key
same_key_refl k = rw (eq_refl k.camera_id, eq_refl k.track_id, eq_refl k.event_type) refl

same_key-eq : (a b : SemanticKey) → same_key a b ≡ true → a ≡ b
unfolding same_key
same_key-eq a b h = ground (
  arith,
  h,
  eq_iff a.camera_id b.camera_id,
  eq_iff a.track_id b.track_id,
  eq_iff a.event_type b.event_type,
)

has_key-here : (k : SemanticKey) (keys : List SemanticKey) → has_key k (k ∷ keys) ≡ true
has_key-here k keys = ground (arith, same_key_refl k)

has_key-there :
    (k j : SemanticKey) (keys : List SemanticKey)
    → has_key k keys ≡ true
    → has_key k (j ∷ keys) ≡ true
has_key-there k j keys h = ground (arith, h)

module _ {C X : Type 0} where
  -- The index of a dict of events: an event stands under its id and its key is listed, no two events
  -- have the same key, and each listed key is that of an event.
  pub record IsIndexed (events : Dict (VehicleEvent C X)) (keys : List SemanticKey) : Type 0 where
    pub kept :
        (k : Str) (e : VehicleEvent C X)
        → get events k ≡ some e
        → (e.id ≡ k) × (has_key (semantic_key e) keys ≡ true)
    pub unique :
        (k j : Str) (e f : VehicleEvent C X)
        → get events k ≡ some e
        → get events j ≡ some f
        → semantic_key e ≡ semantic_key f
        → k ≡ j
    pub owned :
        (key : SemanticKey)
        → has_key key keys ≡ true
        → (k : Str) × (e : VehicleEvent C X) × (get events k ≡ some e) × (semantic_key e ≡ key)

  -- The later dict has an event with the same key wherever the earlier one has an event.
  abbrev pub IsExtended : Dict (VehicleEvent C X) → Dict (VehicleEvent C X) → Type 0
  IsExtended events later =
      (k : Str) (e : VehicleEvent C X)
      → get events k ≡ some e
      → (f : VehicleEvent C X) × (get later k ≡ some f) × (semantic_key f ≡ semantic_key e)

  pub IsExtended-refl : (events : Dict (VehicleEvent C X)) → IsExtended events events
  IsExtended-refl events k e at = (e, at, refl)

  pub IsExtended-compose :
      (a b c : Dict (VehicleEvent C X)) → IsExtended a b → IsExtended b c → IsExtended a c
  IsExtended-compose a b c h₁ h₂ k e at =
      let (f, at', same) = h₁ k e at in let (g, at'', same') = h₂ k f at' in (g, at'', same' ∙ same)

  pub put-IsExtended_same :
      (events : Dict (VehicleEvent C X)) (k : Str) (old new : VehicleEvent C X)
      → get events k ≡ some old
      → semantic_key new ≡ semantic_key old
      → IsExtended events (put events k new)
  put-IsExtended_same events k old new found same j e at = elim (Bool-cases (k == j)) [
    | inr other ↦ (e, get-put events k j new ∙ rw other at, refl)
    | inl here ↦
        let where_at : k ≡ j = ground (arith, eq_iff k j, here) in
        let is : old ≡ e = some_injective (sym found ∙ ap (get events) where_at ∙ at) in
        (new, get-put events k j new ∙ rw here refl, same ∙ ap semantic_key is)
  ]

  pub put-IsExtended_new :
      (events : Dict (VehicleEvent C X)) (new : VehicleEvent C X)
      → contains events new.id ≡ false
      → IsExtended events (put events new.id new)
  put-IsExtended_new events new fresh j e at = elim (Bool-cases (new.id == j)) [
    | inr other ↦ (e, get-put events new.id j new ∙ rw other at, refl)
    | inl here ↦
        let where_at : new.id ≡ j = ground (arith, eq_iff new.id j, here) in
        let lost : true ≡ false = sym (ap is_some (ap (get events) where_at ∙ at)) ∙ fresh in
        absurd (ground (arith, lost))
  ]

  -- An event may be replaced by one with the same id and key.
  pub put-IsIndexed_same :
      (events : Dict (VehicleEvent C X)) (keys : List SemanticKey) (k : Str)
      (old new : VehicleEvent C X)
      → IsIndexed events keys
      → get events k ≡ some old
      → new.id ≡ old.id
      → semantic_key new ≡ semantic_key old
      → IsIndexed (put events k new) keys
  put-IsIndexed_same events keys k old new index found same_id same = record {
    kept = λ j e h. elim (put-cases events k new j e h) [
      | inl (at, is_new) ↦ (
        sym (ap (λ x. x.id) is_new) ∙ same_id ∙ (index.kept k old found).0 ∙ at,
        rw (sym is_new, same) ((index.kept k old found).1),
      )
      | inr stored ↦ index.kept j e stored
    ];
    unique = λ i j e f h₁ h₂ equal. elim (put-cases events k new i e h₁) [
      | inl (at, is_new) ↦ elim (put-cases events k new j f h₂) [
        | inl (at', is_new') ↦ sym at ∙ at'
        | inr stored ↦
            sym at ∙ index.unique k j old f found stored (sym same ∙ ap semantic_key is_new ∙ equal)
      ]
      | inr stored ↦ elim (put-cases events k new j f h₂) [
        | inl (at, is_new) ↦
            index.unique i k e old stored found (equal ∙ sym (ap semantic_key is_new) ∙ same) ∙ at
        | inr stored' ↦ index.unique i j e f stored stored' equal
      ]
    ];
    owned = λ key listed.
        let (j, e, at, of_key) = index.owned key listed in
        let (f, at', kept_key) = put-IsExtended_same events k old new found same j e at in
        (j, f, at', kept_key ∙ of_key);
  }

  pub put-IsIndexed_new :
      (events : Dict (VehicleEvent C X)) (keys : List SemanticKey) (new : VehicleEvent C X)
      → IsIndexed events keys
      → contains events new.id ≡ false
      → has_key (semantic_key new) keys ≡ false
      → IsIndexed (put events new.id new) (semantic_key new ∷ keys)
  put-IsIndexed_new events keys new index absent fresh = record {
    kept = λ j e h. elim (put-cases events new.id new j e h) [
      | inl (at, is_new) ↦ (
        sym (ap (λ x. x.id) is_new) ∙ at,
        subst (λ x. has_key (semantic_key x) (semantic_key new ∷ keys) ≡ true) is_new
            (has_key-here (semantic_key new) keys),
      )
      | inr stored ↦ (
        (index.kept j e stored).0,
        has_key-there (semantic_key e) (semantic_key new) keys (index.kept j e stored).1,
      )
    ];
    unique = λ i j e f h₁ h₂ equal. elim (put-cases events new.id new i e h₁) [
      | inl (at, is_new) ↦ elim (put-cases events new.id new j f h₂) [
        | inl (at', is_new') ↦ sym at ∙ at'
        | inr stored ↦
            absurd (unlisted f (index.kept j f stored).1 (ap semantic_key is_new ∙ equal))
      ]
      | inr stored ↦ elim (put-cases events new.id new j f h₂) [
        | inl (at, is_new) ↦
            absurd (unlisted e (index.kept i e stored).1 (ap semantic_key is_new ∙ sym equal))
        | inr stored' ↦ index.unique i j e f stored stored' equal
      ]
    ];
    owned = λ key listed. elim (Bool-cases (same_key key (semantic_key new))) [
      | inl is_new ↦ (new.id, new, get-put_self events new.id new, sym (same_key-eq key _ is_new))
      | inr older ↦
          let (j, e, at, of_key) = index.owned key (ground (arith, listed, older)) in
          let (f, at', kept_key) = put-IsExtended_new events new absent j e at in
          (j, f, at', kept_key ∙ of_key)
    ];
  }
    where
      unlisted :
          (e : VehicleEvent C X)
          → has_key (semantic_key e) keys ≡ true
          → semantic_key new ≢ semantic_key e
      unlisted e listed equal = grind (arith, listed, equal, fresh)
