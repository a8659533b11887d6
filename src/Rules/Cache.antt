-- ===== src/Rules/Cache.antt =====
-- The cache of VehicleEventPolicyProcessor._active_rules (application/event_policy.py). A time is a
-- count of microseconds of the monotonic clock, read once as `now`; the lock keeps out other loads,
-- so the second look at the cache is the first. `loaded` is what the rule repository lists.
use vehicle_intelligence.Prelude.{
  ℕ, ◌+◌, ◌≤◌, ◌≡◌, arith, ltb, ltb→ge, length, All, if◌then◌else◌, Option, none, some, List, [],
  ◌∷◌, Str, Result, ok, err, ◌>>◌, Done, done, is_done, ap, ◌∙◌, sym, rule_validation_error,
  Result-cases, Bool-cases, inl, inr,
}
use vehicle_intelligence.Rules.{Rule}
use vehicle_intelligence.Rules.Actions.{SplitUrl, validate}

pub record Cache (M : Type 0) : Type 0 where
  pub cached_rules : Option (List (Rule M))
  pub rules_expire_at : ℕ

module _ {M : Type 0} (urlsplit : Str → Result SplitUrl) (maximum_rules cache_ttl : ℕ) where
  unfoldable pub validate_all : List (Rule M) → Result Done
  validate_all [] = ok done
  validate_all (rule ∷ rest) = let others = validate_all rest in do validate urlsplit rule; others

  -- the part behind the cache
  unfoldable pub load : List (Rule M) → ℕ → Result (List (Rule M) × Cache M)
  load loaded now = if ltb maximum_rules (length loaded) then err rule_validation_error else do
    validate_all loaded
    ok (loaded, record { cached_rules = some loaded; rules_expire_at = now + cache_ttl })

  abbrev pub cached :
      Option (List (Rule M)) → Cache M → List (Rule M) → ℕ → Result (List (Rule M) × Cache M)
  cached none cache loaded now = load loaded now
  cached (some rules) cache loaded now =
      if ltb now cache.rules_expire_at then ok (rules, cache) else load loaded now

  unfoldable pub active_rules : Cache M → List (Rule M) → ℕ → Result (List (Rule M) × Cache M)
  active_rules cache loaded now = cached cache.cached_rules cache loaded now

  -- Rules that may be evaluated: not too many, and each validated.
  abbrev pub IsUsable : List (Rule M) → Type 0
  IsUsable rules =
      (length rules ≤ maximum_rules) × All (λ rule. validate urlsplit rule ≡ ok done) rules

  abbrev pub IsUsableCache : Option (List (Rule M)) → Type 0
  IsUsableCache none = Unit
  IsUsableCache (some rules) = IsUsable rules

  abbrev pub GivesUsable : Result (List (Rule M) × Cache M) → Type 0
  GivesUsable (err e) = Unit
  GivesUsable (ok (rules, cache)) = IsUsable rules × IsUsableCache cache.cached_rules

  validate_all-All :
      (rules : List (Rule M))
      → validate_all rules ≡ ok done
      → All (λ rule. validate urlsplit rule ≡ ok done) rules
  unfolding validate_all
  validate_all-All [] h = tt
  validate_all-All (rule ∷ rest) h = elim (Result-cases (validate urlsplit rule)) [
    | inr (e, raised) ↦ ground (arith, h, raised)
    | inl (d, passed) ↦ (
      passed ∙ ap ok (is_done d),
      validate_all-All rest (sym (ap (λ r. r >> validate_all rest) passed) ∙ h),
    )
  ]

  load-GivesUsable : (loaded : List (Rule M)) (now : ℕ) → GivesUsable (load loaded now)
  unfolding load
  load-GivesUsable loaded now = elim (Bool-cases (ltb maximum_rules (length loaded))) [
    | inl many ↦ rw many tt
    | inr few ↦ elim (Result-cases (validate_all loaded)) [
      | inr (e, raised) ↦ rw (few, raised) tt
      | inl (d, passed) ↦
          let usable : IsUsable loaded = (
            ltb→ge maximum_rules (length loaded) few,
            validate_all-All loaded (passed ∙ ap ok (is_done d)),
          ) in
          rw (few, passed) (usable, usable)
    ]
  ]

  -- If the cache holds at most maximum_rules rules, each validated, then so do the rules that a call
  -- returns and the cache that it leaves, whatever the repository lists and whatever the time is.
  pub active_rules-GivesUsable :
      (cache : Cache M) (loaded : List (Rule M)) (now : ℕ)
      → IsUsableCache cache.cached_rules
      → GivesUsable (active_rules cache loaded now)
  unfolding active_rules
  active_rules-GivesUsable cache loaded now h = by_cache cache.cached_rules h
    where
      by_cache :
          (o : Option (List (Rule M)))
          → IsUsableCache o
          → GivesUsable (cached o (record cache { cached_rules = o }) loaded now)
      by_cache none k = load-GivesUsable loaded now
      by_cache (some rules) k = elim (Bool-cases (ltb now cache.rules_expire_at)) [
        | inl fresh ↦ rw fresh (k, k)
        | inr expired ↦ rw expired (load-GivesUsable loaded now)
      ]
