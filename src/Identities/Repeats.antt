-- ===== src/Identities/Repeats.antt =====
-- A review is stored with its result, and its id answers for it from then on.
use vehicle_intelligence.Prelude.{
  identity_conflict, identity_not_found, select, codes, ℕ, ◌+◌, ◌≡◌, refl, sym, ap, ◌∙◌, arith, Str,
  eq_refl, eq_iff, eqb, length, if◌then◌else◌, Option, none, some, Option-cases, List, [], ◌∷◌,
  ◌++◌, Bool, true, false, ◌||◌, not, Bool-cases, inl, inr, get, put, contains, member, get-put,
  get-put_self, Result, Error, ok, err,
}
use mathlib.Core.Path.{subst}
use vehicle_intelligence.Identities.{
  is_active, merged, VehicleFingerprint, VehicleIdentity, Floats, post_init,
}
use vehicle_intelligence.Identities.Aggregates.{identity_from_fingerprints}
use vehicle_intelligence.Identities.Repository.{
  fingerprints_of, is_none, IdentityMergeReview, IdentitySplitReview, Review, merge_review,
  split_review, IdentityReviewResult, Repository, same_texts, sort_texts, same_option, same_request,
  reviewed_before, moved_to,
}
use vehicle_intelligence.Identities.Reviews.{
  commit_merge, merge_both, review_merge, commit_split, split_found, review_split,
}

same_texts_refl : (xs : List Str) → same_texts xs xs ≡ true
same_texts_refl [] = refl
same_texts_refl (x ∷ xs) = rw (eq_refl x, same_texts_refl xs) refl

same_option_refl : (o : Option Str) → same_option o o ≡ true
same_option_refl none = refl
same_option_refl (some x) = eq_refl x

eqb_refl : (n : ℕ) → eqb n n ≡ true
eqb_refl n = ground arith

same_request_refl : (v : Review) → same_request v v ≡ true
unfolding same_request
same_request_refl (merge_review a) =
    rw
      (
        eq_refl a.source_vehicle_id,
        eq_refl a.target_vehicle_id,
        eqb_refl a.expected_source_revision,
        eqb_refl a.expected_target_revision,
        eq_refl a.reviewer_id,
        eq_refl a.reason,
        same_option_refl a.source_fingerprint_id,
        same_option_refl a.target_fingerprint_id,
      )
      refl
same_request_refl (split_review a) =
    rw
      (
        eq_refl a.source_vehicle_id,
        eq_refl a.new_vehicle_id,
        eqb_refl a.expected_source_revision,
        eq_refl a.reviewer_id,
        eq_refl a.reason,
        same_texts_refl (sort_texts a.fingerprint_ids),
      )
      refl

abbrev pub review_id : Review → Str
review_id (merge_review a) = a.id
review_id (split_review a) = a.id

-- What no call takes away: the reviews that are stored, and the events that were registered.
pub record IsKept {C X : Type 0} (before after : Repository C X) : Type 0 where
  pub reviews :
      (k : Str) (p : Review × IdentityReviewResult)
      → get before.reviews k ≡ some p
      → get after.reviews k ≡ some p
  pub events :
      (e : Str) → member e before.source_events ≡ true → member e after.source_events ≡ true

-- How a review whose id is new ends.
record IsReviewed {C X : Type 0} (v : Review) (r : Repository C X)
    (o : Result IdentityReviewResult × Repository C X) : Type 0 where
  kept : IsKept r o.1
  recorded :
      (result : IdentityReviewResult)
      → o.0 ≡ ok result
      → get o.1.reviews (review_id v) ≡ some (v, result)

ok_injective : {A : Type 0} {a b : A} → ok a ≡ ok b → a ≡ b
ok_injective e = ground (arith, e)

module _ {C X : Type 0} where
  pub same-IsKept : (r : Repository C X) → IsKept r r
  same-IsKept r = record { reviews = λ k p h. h; events = λ e h. h }

  raised-IsReviewed : (v : Review) (r : Repository C X) (x : Error) → IsReviewed v r (err x, r)
  raised-IsReviewed v r x = record {
    kept = same-IsKept r;
    recorded = λ result e. ground (arith, e);
  }

  if-IsReviewed :
      (v : Review) (r : Repository C X) (c : Bool) (x : Error)
      (o : Result IdentityReviewResult × Repository C X)
      → IsReviewed v r o
      → IsReviewed v r (if c then (err x, r) else o)
  if-IsReviewed v r true x o h = raised-IsReviewed v r x
  if-IsReviewed v r false x o h = h

  -- the write of a review under its new id
  stored-IsReviewed :
      (v : Review) (r after : Repository C X) (result : IdentityReviewResult)
      → get r.reviews (review_id v) ≡ none
      → after.reviews ≡ put r.reviews (review_id v) (v, result)
      → after.source_events ≡ r.source_events
      → IsReviewed v r (ok result, after)
  stored-IsReviewed v r after result new written events = record {
    kept = record {
      reviews = λ k p h.
          ap (λ d. get d k) written
          ∙ get-put r.reviews (review_id v) k (v, result)
          ∙ ground (arith, eq_iff (review_id v) k, new, h);
      events = λ e h. ap (member e) events ∙ h;
    };
    recorded = λ other e.
        ap (λ d. get d (review_id v)) written
        ∙ get-put_self r.reviews (review_id v) (v, result)
        ∙ ap (λ x. some (v, x)) (ok_injective e);
  }

module _ {C X : Type 0} (floats : Floats C) (text : Str → X) where
  commit_merge-IsReviewed :
      (v : IdentityMergeReview) (n : ℕ) (source target : VehicleIdentity C X)
      (moved : List (VehicleFingerprint C X)) (a b : Result (VehicleIdentity C X))
      (r : Repository C X)
      → get r.reviews v.id ≡ none
      → IsReviewed (merge_review v) r (commit_merge floats text v n source target moved a b r)
  commit_merge-IsReviewed v n source target moved (err x) b r new =
      raised-IsReviewed (merge_review v) r x
  commit_merge-IsReviewed v n source target moved (ok a) (err x) r new =
      raised-IsReviewed (merge_review v) r x
  commit_merge-IsReviewed v n source target moved (ok a) (ok b) r new =
      stored-IsReviewed (merge_review v) r _ _ new refl refl

  merge_both-IsReviewed :
      (o p : Option (VehicleIdentity C X)) (v : IdentityMergeReview) (n : ℕ) (r : Repository C X)
      → get r.reviews v.id ≡ none
      → IsReviewed (merge_review v) r (merge_both floats text o p v n r)
  merge_both-IsReviewed none p v n r new = raised-IsReviewed (merge_review v) r identity_not_found
  merge_both-IsReviewed (some source) none v n r new =
      raised-IsReviewed (merge_review v) r identity_not_found
  merge_both-IsReviewed (some source) (some target) v n r new =
      let source_fingerprints = fingerprints_of source.id r.fingerprints in
      let target_fingerprints = fingerprints_of target.id r.fingerprints in
      if-IsReviewed (merge_review v) r
        (not (is_active source.status) || not (is_active target.status)) identity_conflict _
        (if-IsReviewed (merge_review v) r
          (not (eqb source.revision v.expected_source_revision)
            || not (eqb target.revision v.expected_target_revision))
          identity_conflict _
          (if-IsReviewed (merge_review v) r
            (is_none source_fingerprints || is_none target_fingerprints) identity_conflict _
            (commit_merge-IsReviewed v n source target (moved_to target.id source_fingerprints)
              (identity_from_fingerprints floats target.id
                (target_fingerprints ++ moved_to target.id source_fingerprints)
                (target.revision + 1) target.metadata)
              (post_init (record source {
                status = merged;
                revision = source.revision + 1;
                metadata =
                    put (put source.metadata (codes "mergedInto") (text target.id))
                      (codes "reviewId") (text v.id);
              }))
              r new)))

  commit_split-IsReviewed :
      (v : IdentitySplitReview) (n : ℕ) (source : VehicleIdentity C X)
      (moved : List (VehicleFingerprint C X)) (a b : Result (VehicleIdentity C X))
      (r : Repository C X)
      → get r.reviews v.id ≡ none
      → IsReviewed (split_review v) r (commit_split floats text v n source moved a b r)
  commit_split-IsReviewed v n source moved (err x) b r new = raised-IsReviewed (split_review v) r x
  commit_split-IsReviewed v n source moved (ok a) (err x) r new = record {
    kept = record { reviews = λ k p h. h; events = λ e h. h };
    recorded = λ result e. ground (arith, e);
  }
  commit_split-IsReviewed v n source moved (ok a) (ok b) r new =
      stored-IsReviewed (split_review v) r _ _ new refl refl

  split_found-IsReviewed :
      (v : IdentitySplitReview) (n : ℕ) (source : VehicleIdentity C X) (r : Repository C X)
      → get r.reviews v.id ≡ none
      → IsReviewed (split_review v) r (split_found floats text v n source r)
  split_found-IsReviewed v n source r new =
      let all_fingerprints = fingerprints_of source.id r.fingerprints in
      let selected = select (λ item. member item.id v.fingerprint_ids) all_fingerprints in
      let remaining = select (λ item. not (member item.id v.fingerprint_ids)) all_fingerprints in
      if-IsReviewed (split_review v) r (not (is_active source.status)) identity_conflict _ (
        if-IsReviewed (split_review v) r (not (eqb source.revision v.expected_source_revision))
          identity_conflict _
          (if-IsReviewed (split_review v) r (contains r.identities v.new_vehicle_id)
            identity_conflict _
            (if-IsReviewed (split_review v) r
              (not (eqb (length selected) (length v.fingerprint_ids))) identity_conflict _
              (if-IsReviewed (split_review v) r (is_none remaining) identity_conflict _ (
                commit_split-IsReviewed v n source (moved_to v.new_vehicle_id selected)
                  (identity_from_fingerprints floats source.id remaining (source.revision + 1)
                    (put source.metadata (codes "lastSplitReviewId") (text v.id)))
                  (identity_from_fingerprints floats v.new_vehicle_id
                    (moved_to v.new_vehicle_id selected) 1
                    (put (put [] (codes "splitFrom") (text source.id)) (codes "reviewId")
                      (text v.id)))
                  r new)))))

  -- a review of either kind
  unfoldable pub review : Review → ℕ → Repository C X → Result IdentityReviewResult × Repository C X
  review (merge_review v) n r = review_merge floats text v n r
  review (split_review v) n r = review_split floats text v n r

  -- a known id, for either kind
  pub review_known :
      (v : Review) (n : ℕ) (r : Repository C X) (prior : Review × IdentityReviewResult)
      → get r.reviews (review_id v) ≡ some prior
      → review v n r ≡ (reviewed_before prior v, r)
  unfolding review review_merge review_split
  review_known (merge_review v) n r prior known = rw (known, review_merge) refl
  review_known (split_review v) n r prior known = rw (known, review_split) refl

  review-IsReviewed :
      (v : Review) (n : ℕ) (r : Repository C X)
      → get r.reviews (review_id v) ≡ none
      → IsReviewed v r (review v n r)
  unfolding review review_merge review_split
  review-IsReviewed (merge_review v) n r new =
      rw (new, review_merge)
        (merge_both-IsReviewed (get r.identities v.source_vehicle_id)
          (get r.identities v.target_vehicle_id) v n r new)
  review-IsReviewed (split_review v) n r new =
      elim (Option-cases (get r.identities v.source_vehicle_id)) [
        | inl absent ↦
            rw (new, review_split, absent) (raised-IsReviewed (split_review v) r identity_not_found)
        | inr (source, there) ↦
            rw (new, review_split, there) (split_found-IsReviewed v n source r new)
      ]

  pub review-IsKept : (v : Review) (n : ℕ) (r : Repository C X) → IsKept r (review v n r).1
  review-IsKept v n r = elim (Option-cases (get r.reviews (review_id v))) [
    | inl new ↦ (review-IsReviewed v n r new).kept
    | inr (prior, known) ↦
        subst (λ o. IsKept r o.1) (sym (review_known v n r prior known)) (same-IsKept r)
  ]

  -- An answer that returned is stored, and given again to the same request.
  pub review_recorded :
      (v : Review) (n : ℕ) (r : Repository C X) (result : IdentityReviewResult)
      → (review v n r).0 ≡ ok result
      → (prior : Review × IdentityReviewResult) × (get (review v n r).1.reviews (review_id v)
          ≡ some prior)
        × (reviewed_before prior v ≡ ok (record result { idempotent = true }))
  unfolding reviewed_before
  review_recorded v n r result returned = elim (Option-cases (get r.reviews (review_id v))) [
    | inl new ↦ (
      (v, result),
      (review-IsReviewed v n r new).recorded result returned,
      rw (same_request_refl v) refl,
    )
    | inr (prior, known) ↦
        let answer = review_known v n r prior known in
        let given : reviewed_before prior v ≡ ok result = sym (ap (λ o. o.0) answer) ∙ returned in
        (prior, ap (λ o. get o.1.reviews (review_id v)) answer ∙ known, again prior v result given)
  ]
    where
      again :
          (prior : Review × IdentityReviewResult) (v : Review) (result : IdentityReviewResult)
          → reviewed_before prior v ≡ ok result
          → reviewed_before prior v ≡ ok (record result { idempotent = true })
      again prior v result given = elim (Bool-cases (same_request prior.0 v)) [
        | inl same ↦
            let is : record prior.1 { idempotent = true } ≡ result =
              ok_injective (rw same at given) in
            rw same (ap (λ (x : IdentityReviewResult). ok (record x { idempotent = true })) is)
        | inr other ↦ ground (arith, given, other)
      ]
