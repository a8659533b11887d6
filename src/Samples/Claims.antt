-- ===== src/Samples/Claims.antt =====
-- What a claim for an export leaves alone.
use vehicle_intelligence.Prelude.{
  Option, ◌⊎◌, ℕ, zero, suc, ◌+◌, ◌-◌, ◌≤◌, ◌≡◌, ◌≢◌, refl, sym, ap, ◌∙◌, arith, Str, eq_iff,
  eq_refl, Dict, get, put, values, get-put, All, select, take, length, length-append,
  length-take-le, ◌++◌, none, some, List, [], ◌∷◌, Bool, true, false, ◌&&◌, Result, ok, err, ◌>>=◌,
  Bool-cases, Result-cases, inl, inr, strip, is_empty, leb, not, member, map,
}
use mathlib.Core.Path.{subst}
use vehicle_intelligence.Persistence.Sorting.{All-oldest_first}
use vehicle_intelligence.Samples.{
  DatasetSample, post_init, claimed, claim_each, resumed_of, eligible_of, claim_for_export,
  is_eligible, is_older, exporting, exported, key_of,
}

All-select {κ} :
    {A : Type 0} (P : A → Type κ) (p : A → Bool) (xs : List A) → All P xs → All P (select p xs)
All-select P p [] h = tt
All-select P p (x ∷ xs) h = elim (Bool-cases (p x)) [
  | inl chosen ↦ rw chosen (h.0, All-select P p xs h.1)
  | inr other ↦ rw other (All-select P p xs h.1)
]

All-take {κ} : {A : Type 0} (P : A → Type κ) (n : ℕ) (xs : List A) → All P xs → All P (take n xs)
All-take P zero xs h = tt
All-take P (suc n) [] h = tt
All-take P (suc n) (x ∷ xs) h = (h.0, All-take P n xs h.1)

-- A claim that was made at the limit or later; one without a time is never stale.
abbrev pub IsFresh : Option ℕ → ℕ → Type 0
IsFresh none limit = Unit
IsFresh (some time) limit = limit ≤ time

fresh-older : (claim : Option ℕ) (limit : ℕ) → IsFresh claim limit → is_older claim limit ≡ false
fresh-older none limit h = refl
fresh-older (some time) limit h = ground (arith, h)

module _ {X : Type 0} where
  -- A sample that no claim may take: an exported one, and one that an export is working on.
  abbrev pub IsHeld : ℕ → DatasetSample X → Type 0
  IsHeld stale_before s =
      (s.status ≡ exported) ⊎ ((s.status ≡ exporting) × IsFresh s.export_claimed_at stale_before)

  held-eligible :
      (stale_before : ℕ) (s : DatasetSample X)
      → IsHeld stale_before s
      → is_eligible stale_before s ≡ false
  unfolding is_eligible
  held-eligible stale_before s (inl finished) = rw finished refl
  held-eligible stale_before s (inr (working, fresh)) =
      rw (working, fresh-older s.export_claimed_at stale_before fresh) refl

  -- A sample stands under its id.
  abbrev pub IsKeyed : Dict (DatasetSample X) → Type 0
  IsKeyed [] = Unit
  IsKeyed ((k, s) ∷ d) = (s.id ≡ k) × (get d k ≡ none) × IsKeyed d

  stored-behind :
      (d : Dict (DatasetSample X)) (k : Str) (s : DatasetSample X) (xs : List (DatasetSample X))
      → get d k ≡ none
      → All (λ x. get d x.id ≡ some x) xs
      → All (λ x. get ((k, s) ∷ d) x.id ≡ some x) xs
  stored-behind d k s [] fresh h = tt
  stored-behind d k s (x ∷ xs) fresh h =
      (ground (arith, h.0, fresh, eq_iff k x.id), stored-behind d k s xs fresh h.1)

  values-stored :
      (d : Dict (DatasetSample X)) → IsKeyed d → All (λ s. get d s.id ≡ some s) (values d)
  values-stored [] h = tt
  values-stored ((k, s) ∷ d) h =
      (ground (arith, h.0, eq_refl k), stored-behind d k s (values d) h.1 (values-stored d h.2))

  -- The loop returned n samples and left what stands under k, if it returned.
  abbrev LeftAlone :
      Dict (DatasetSample X)
      → Str
      → ℕ
      → Result (List (DatasetSample X) × Dict (DatasetSample X))
      → Type 0
  LeftAlone samples k n (err e) = Unit
  LeftAlone samples k n (ok (taken, result)) = (get result k ≡ get samples k) × (length taken ≡ n)

  claim_each-LeftAlone :
      (rest : List (DatasetSample X)) (export_id : Str) (claimed_at : ℕ)
      (samples : Dict (DatasetSample X)) (k : Str)
      → All (λ a. a.id ≢ k) rest
      → LeftAlone samples k (length rest) (claim_each rest export_id claimed_at samples)
  unfolding claim_each
  claim_each-LeftAlone [] export_id claimed_at samples k h = (refl, refl)
  claim_each-LeftAlone (a ∷ rest) export_id claimed_at samples k h =
      elim (Result-cases (post_init (claimed a export_id claimed_at))) [
        | inr (e, raised) ↦ rw raised tt
        | inl (taken, valid) ↦ rw valid (
            one_more (claim_each rest export_id claimed_at (put samples a.id taken)) taken
              (claim_each-LeftAlone rest export_id claimed_at (put samples a.id taken) k h.1))
      ]
    where
      one_more :
          (outcome : Result (List (DatasetSample X) × Dict (DatasetSample X)))
          (taken : DatasetSample X)
          → LeftAlone (put samples a.id taken) k (length rest) outcome
          → LeftAlone samples k (suc (length rest)) (outcome >>= (λ o. ok (taken ∷ o.0, o.1)))
      one_more (err e) taken left = tt
      one_more (ok (others, result)) taken left = (
        left.0 ∙ ground (arith, get-put samples a.id k taken, eq_iff a.id k, h.0),
        omega (arith, left.1),
      )

  eligible-others :
      (samples : Dict (DatasetSample X)) (selected : List (DatasetSample X)) (stale_before : ℕ)
      (k : Str) (s : DatasetSample X)
      → IsKeyed samples
      → get samples k ≡ some s
      → is_eligible stale_before s ≡ false
      → All (λ a. a.id ≢ k) (eligible_of samples selected stale_before)
  unfolding eligible_of
  eligible-others samples selected stale_before k s keyed found safe =
      All-oldest_first key_of (λ a. a.id ≢ k) _
        (others (values samples) (values-stored samples keyed))
    where
      contradiction : true ≡ false → ⊥
      contradiction h = ground arith

      same_sample : {a b : DatasetSample X} → some a ≡ some b → a ≡ b
      same_sample h = ground arith

      differs :
          (x : DatasetSample X)
          → get samples x.id ≡ some x
          → is_eligible stale_before x ≡ true
          → x.id ≢ k
      differs x stored eligible same = contradiction (
          sym eligible
          ∙ ap (is_eligible stale_before) (same_sample (sym stored ∙ ap (get samples) same ∙ found))
          ∙ safe)

      others :
          (xs : List (DatasetSample X))
          → All (λ x. get samples x.id ≡ some x) xs
          → All
              (λ a. a.id ≢ k)
              (select
                (λ sample.
                  not (member sample.id (map (λ s. s.id) selected))
                  && is_eligible stale_before sample)
                xs)
      others [] h = tt
      others (x ∷ xs) h =
          elim (Bool-cases
            (not (member x.id (map (λ s. s.id) selected)) && is_eligible stale_before x)) [
              | inr passed ↦ rw passed (others xs h.1)
              | inl chosen ↦ rw chosen (differs x h.0 (ground (arith, chosen)), others xs h.1)
            ]

  length-selected :
      (samples : Dict (DatasetSample X)) (export_id : Str) (limit : ℕ)
      → length (resumed_of samples export_id limit) ≤ limit
  unfolding resumed_of
  length-selected samples export_id limit = length-take-le limit _

  -- what is claimed from a longer list
  length-chosen :
      (n m limit : ℕ) (xs : List (DatasetSample X))
      → n ≤ limit
      → m ≡ length (take (limit - n) xs)
      → n + m ≤ limit
  length-chosen n m limit xs h k = omega (arith, length-take-le (limit - n) xs)

  claimed-valid :
      (a : DatasetSample X) (export_id : Str) (claimed_at : ℕ)
      → post_init a ≡ ok a
      → is_empty (strip export_id) ≡ false
      → post_init (claimed a export_id claimed_at) ≡ ok (claimed a export_id claimed_at)
  unfolding post_init claimed
  claimed-valid a export_id claimed_at valid named = ground (arith, valid, named)

  claim_each_total :
      (rest : List (DatasetSample X)) (export_id : Str) (claimed_at : ℕ)
      (samples : Dict (DatasetSample X))
      → All (λ a. post_init a ≡ ok a) rest
      → is_empty (strip export_id) ≡ false
      → (o : List (DatasetSample X) × Dict (DatasetSample X)) × (claim_each rest export_id
            claimed_at samples
          ≡ ok o)
        × (length o.0 ≡ length rest)
  unfolding claim_each
  claim_each_total [] export_id claimed_at samples h named = (([], samples), refl, refl)
  claim_each_total (a ∷ rest) export_id claimed_at samples h named =
      let (o, further, counted) =
        claim_each_total rest export_id claimed_at
          (put samples a.id (claimed a export_id claimed_at)) h.1 named in
      (
        (claimed a export_id claimed_at ∷ o.0, o.1),
        rw (claimed-valid a export_id claimed_at h.0 named, further) refl,
        omega (arith, counted),
      )

  eligible-valid :
      (samples : Dict (DatasetSample X)) (selected : List (DatasetSample X)) (stale_before : ℕ)
      → All (λ a. post_init a ≡ ok a) (values samples)
      → All (λ a. post_init a ≡ ok a) (eligible_of samples selected stale_before)
  unfolding eligible_of
  eligible-valid samples selected stale_before h =
      All-oldest_first key_of (λ a. post_init a ≡ ok a) _
        (All-select (λ a. post_init a ≡ ok a) _ (values samples) h)

  -- A claim for an export with an id and a limit of 1 to 1000 returns, if the stored samples pass the
  -- checks of their class. It returns at most limit samples, and these stored samples stay as they
  -- are: one whose status is exported, and one whose status is exporting and whose time of claim is
  -- stale_before or later, or missing.
  pub claim-exclusive :
      (samples : Dict (DatasetSample X)) (export_id : Str) (limit claimed_at stale_before : ℕ)
      → IsKeyed samples
      → All (λ a. post_init a ≡ ok a) (values samples)
      → is_empty (strip export_id) ≡ false
      → 1 ≤ limit
      → limit ≤ 1000
      → (o : List (DatasetSample X) × Dict (DatasetSample X)) × (claim_for_export samples export_id
            limit claimed_at stale_before
          ≡ ok o)
        × (length o.0 ≤ limit)
        × ((k : Str) (s : DatasetSample X)
            → get samples k ≡ some s
            → IsHeld stale_before s
            → get o.1 k ≡ some s)
  unfolding claim_for_export
  claim-exclusive samples export_id limit claimed_at stale_before keyed valid named least most =
      let selected = resumed_of samples export_id limit in
      let eligible = eligible_of samples selected stale_before in
      let chosen = take (limit - length selected) eligible in
      let (o, returned, counted) =
        claim_each_total chosen export_id claimed_at samples
          (All-take (λ a. post_init a ≡ ok a) (limit - length selected) eligible
            (eligible-valid samples selected stale_before valid))
          named in
      (
        (selected ++ o.0, o.1),
        rw (named, in_range, returned) refl,
        rw (length-append selected o.0) (
            length-chosen (length selected) (length o.0) limit eligible
              (length-selected samples export_id limit) counted),
        λ k s found held.
            (subst (LeftAlone samples k (length chosen)) returned (
              claim_each-LeftAlone chosen export_id claimed_at samples k (
                All-take (λ a. a.id ≢ k) (limit - length selected) eligible
                  (eligible-others samples selected stale_before k s keyed found
                    (held-eligible stale_before s held))))).0
            ∙ found,
      )
    where
      in_range : (leb 1 limit && leb limit 1000) ≡ true
      in_range = ground (arith, least, most)
