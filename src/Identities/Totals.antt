-- ===== src/Identities/Totals.antt =====
-- An aggregate of fingerprints passes the checks of VehicleIdentity.
use vehicle_intelligence.Prelude.{
  ℕ, ◌≡◌, ◌≤◌, ◌<◌, refl, arith, Str, eq_refl, strip, is_empty, length, length-take-le, take, ltb,
  min, max, not, if◌then◌else◌, Option, none, some, Option-cases, none-ne-some, List, [], ◌∷◌, Bool,
  true, false, Bool-cases, ◌||◌, ◌⊎◌, inl, inr, Dict, get, put, put-cases, values, Result, ok, err,
  value_error,
}
use mathlib.Core.Path.{subst}
use vehicle_intelligence.Identities.{
  PlateIdentitySignal, VehicleFingerprint, VehicleIdentity, active, Floats, combined, check_signal,
  post_init, has_text,
}
use vehicle_intelligence.Identities.Aggregates.{
  identity_from_fingerprints, sort_signals, add_plate, plates_of, type_scores, color_counts,
  earliest, latest_of, first_text, best_key,
}

-- the check of VehicleIdentity on the primary plate
abbrev misses : {C : Type 0} → Option Str → List (PlateIdentitySignal C) → Bool
misses primary plates = elim primary [ none ↦ false | some text ↦ not (has_text text plates) ]

first_text-misses :
    {C : Type 0} (plates : List (PlateIdentitySignal C)) → misses (first_text plates) plates ≡ false
first_text-misses [] = refl
first_text-misses (signal ∷ plates) = rw (eq_refl signal.text) refl

module _ {C : Type 0} where
  -- A blank plate with a confidence, which makes no plate signal.
  abbrev pub is_blanked : Option Str → Option C → Bool
  is_blanked none confidence = false
  is_blanked (some plate) none = false
  is_blanked (some plate) (some confidence) = is_empty (strip plate)

  -- The signals have a text.
  abbrev AllNamed : Dict (PlateIdentitySignal C) → Type 0
  AllNamed plates =
      (k : Str) (v : PlateIdentitySignal C)
      → get plates k ≡ some v
      → is_empty (strip v.text) ≡ false

  put-AllNamed :
      (plates : Dict (PlateIdentitySignal C)) (k : Str) (v : PlateIdentitySignal C)
      → AllNamed plates
      → is_empty (strip v.text) ≡ false
      → AllNamed (put plates k v)
  put-AllNamed plates k v h named j w found = elim (put-cases plates k v j w found) [
    | inl (at, is_new) ↦ subst (λ x. is_empty (strip x.text) ≡ false) is_new named
    | inr older ↦ h j w older
  ]

  check_signal-ok :
      (signal : PlateIdentitySignal C)
      → is_empty (strip signal.text) ≡ false
      → signal.first_seen_at ≤ signal.last_seen_at
      → check_signal signal ≡ ok signal
  unfolding check_signal
  check_signal-ok signal named ordered =
      let in_order : ltb signal.last_seen_at signal.first_seen_at ≡ false =
        ground (arith, ordered) in
      rw (named, in_order) refl

  -- A plate that is added, or is blank.
  add_plate-cases :
      (floats : Floats C) (plate : Option Str) (confidence : Option C) (time : ℕ)
      (plates : Dict (PlateIdentitySignal C))
      → AllNamed plates
      → ((is_blanked plate confidence ≡ true)
          × (add_plate floats plate confidence time plates ≡ err value_error))
        ⊎ ((is_blanked plate confidence ≡ false)
            × (q : Dict (PlateIdentitySignal C)) × (add_plate floats plate confidence time plates
                ≡ ok q)
            × AllNamed q)
  unfolding check_signal
  add_plate-cases floats none confidence time plates h = inr (refl, plates, refl, h)
  add_plate-cases floats (some plate) none time plates h = inr (refl, plates, refl, h)
  add_plate-cases floats (some plate) (some confidence) time plates h =
      elim (Bool-cases (is_empty (strip plate))) [
        | inl blank ↦ inl (blank, rw (check_signal, blank) refl)
        | inr named ↦
            let signal : PlateIdentitySignal C = record {
              text = plate;
              confidence = confidence;
              first_seen_at = time;
              last_seen_at = time;
            } in
            let checked : check_signal signal ≡ ok signal =
              check_signal-ok signal named (omega arith) in
            elim (Option-cases (get plates plate)) [
              | inl absent ↦ inr (
                named,
                put plates plate signal,
                rw (checked, absent) refl,
                put-AllNamed plates plate signal h named,
              )
              | inr (current, at) ↦
                  let both : PlateIdentitySignal C = combined floats current signal in
                  let text_at : is_empty (strip current.text) ≡ false = h plate current at in
                  let checked_both : check_signal both ≡ ok both =
                    check_signal-ok both text_at (omega arith) in
                  inr (
                    named,
                    put plates plate both,
                    rw (checked, at, checked_both) refl,
                    put-AllNamed plates plate both h text_at,
                  )
            ]
      ]

module _ {C X : Type 0} (floats : Floats C) where
  earliest-le : (t : ℕ) (fs : List (VehicleFingerprint C X)) → earliest floats t fs ≤ t
  earliest-le t [] = omega arith
  earliest-le t (f ∷ fs) = omega (arith, earliest-le (min t f.observed_at) fs)

  le-latest_of : (t : ℕ) (fs : List (VehicleFingerprint C X)) → t ≤ latest_of floats t fs
  le-latest_of t [] = omega arith
  le-latest_of t (f ∷ fs) = omega (arith, le-latest_of (max t f.observed_at) fs)

  post_init-ok :
      (i : VehicleIdentity C X)
      → is_empty (strip i.id) ≡ false
      → (ltb i.last_seen_at i.first_seen_at || ltb i.observation_count 1) ≡ false
      → (ltb i.revision 1 || ltb i.schema_version 1) ≡ false
      → ltb 16 (length i.plates) ≡ false
      → misses i.primary_plate i.plates ≡ false
      → post_init i ≡ ok i
  unfolding post_init
  post_init-ok i named lifecycle versions bounded primary =
      rw (named, lifecycle, versions, bounded, primary) refl

  abbrev pub has_blank : List (VehicleFingerprint C X) → Bool
  has_blank [] = false
  has_blank (f ∷ fs) =
      let others = has_blank fs in if is_blanked f.plate f.plate_confidence then true else others

  plates_of-cases :
      (fs : List (VehicleFingerprint C X)) (plates : Dict (PlateIdentitySignal C))
      → AllNamed plates
      → ((has_blank fs ≡ true) × (plates_of floats fs plates ≡ err value_error))
        ⊎ ((has_blank fs ≡ false)
            × (q : Dict (PlateIdentitySignal C)) × (plates_of floats fs plates ≡ ok q))
  plates_of-cases [] plates h = inr (refl, plates, refl)
  plates_of-cases (f ∷ fs) plates h =
      elim (add_plate-cases floats f.plate f.plate_confidence f.observed_at plates h) [
        | inl (blank, raised) ↦ inl (rw blank refl, rw raised refl)
        | inr (named, q, added, h') ↦ elim (plates_of-cases fs q h') [
          | inl (blank, raised) ↦ inl (rw (named, blank) refl, rw added raised)
          | inr (none_blank, last, kept) ↦ inr (rw (named, none_blank) refl, last, rw added kept)
        ]
      ]

  -- What the aggregate of these fingerprints is: an exception if one has a blank plate, else an
  -- identity that counts them, has at most 16 plates with the primary one first, and was first seen no
  -- later than last.
  abbrev pub IsSummary :
      Bool → List (VehicleFingerprint C X) → Result (VehicleIdentity C X) → Type 0
  IsSummary true fingerprints outcome = outcome ≡ err value_error
  IsSummary false fingerprints outcome =
      (i : VehicleIdentity C X) × (outcome ≡ ok i)
      × (i.observation_count ≡ length fingerprints)
      × (length i.plates ≤ 16)
      × (i.primary_plate ≡ first_text i.plates)
      × (i.first_seen_at ≤ i.last_seen_at)

  built_from :
      (vehicle_id : Str) (f : VehicleFingerprint C X) (fs : List (VehicleFingerprint C X))
      (revision : ℕ) (metadata : Dict X) (kept : Dict (PlateIdentitySignal C))
      → plates_of floats (f ∷ fs) [] ≡ ok kept
      → is_empty (strip vehicle_id) ≡ false
      → 0 < revision
      → IsSummary false
          (f ∷ fs)
          (identity_from_fingerprints floats vehicle_id (f ∷ fs) revision metadata)
  unfolding identity_from_fingerprints
  built_from vehicle_id f fs revision metadata kept stored named positive =
      let plates = take 16 (sort_signals floats (values kept)) in
      let first = earliest floats f.observed_at fs in
      let last = latest_of floats f.observed_at fs in
      let few : length plates ≤ 16 = length-take-le 16 _ in
      let ordered : first ≤ last =
        omega (arith, earliest-le f.observed_at fs, le-latest_of f.observed_at fs) in
      let i : VehicleIdentity C X = record {
        id = vehicle_id;
        primary_plate = first_text plates;
        plates = plates;
        vehicle_type = best_key floats.less (type_scores floats (f ∷ fs) []);
        color = best_key ltb (color_counts floats (f ∷ fs) []);
        first_seen_at = first;
        last_seen_at = last;
        observation_count = length (f ∷ fs);
        status = active;
        revision = revision;
        schema_version = 1;
        metadata = metadata;
      } in
      (
        i,
        rw stored (
            post_init-ok i named (ground (arith, ordered)) (ground (arith, positive))
              (ground (arith, few)) (first_text-misses plates)),
        refl,
        few,
        refl,
        ordered,
      )

  -- For at least one fingerprint, an id that is not blank and a positive revision: if a fingerprint
  -- has a blank plate with a confidence, the aggregate raises a ValueError. Otherwise it is built
  -- without an exception, it counts the fingerprints, has at most 16 plates, of which the primary one
  -- is the first, and was first seen no later than last.
  pub aggregate_total :
      (vehicle_id : Str) (f : VehicleFingerprint C X) (fs : List (VehicleFingerprint C X))
      (revision : ℕ) (metadata : Dict X)
      → is_empty (strip vehicle_id) ≡ false
      → 0 < revision
      → IsSummary
          (has_blank (f ∷ fs))
          (f ∷ fs)
          (identity_from_fingerprints floats vehicle_id (f ∷ fs) revision metadata)
  unfolding identity_from_fingerprints
  aggregate_total vehicle_id f fs revision metadata named positive =
      elim (plates_of-cases (f ∷ fs) [] (λ k v h. absurd (none-ne-some h))) [
        | inl (blank, raised) ↦
            let outcome : identity_from_fingerprints floats vehicle_id (f ∷ fs) revision metadata
                ≡ err value_error =
              rw raised refl in
            rw blank outcome
        | inr (no_blank, kept, stored) ↦
            rw no_blank (built_from vehicle_id f fs revision metadata kept stored named positive)
      ]
