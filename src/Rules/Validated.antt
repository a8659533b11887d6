-- ===== src/Rules/Validated.antt =====
-- A rule that was validated is evaluated without an exception.
use vehicle_intelligence.Prelude.{
  ◌≡◌, refl, sym, ap, arith, Str, ◌==◌, eq_iff, codes, member, Dict, get, List, [], ◌∷◌, all, Bool,
  true, false, ◌&&◌, not, Result, ok, err, ◌>>=◌, ◌>>◌, done, is_done, some, Bool-cases,
  Result-cases, inl, inr, map, ◌∙◌, if◌then◌else◌,
}
use vehicle_intelligence.Events.{VehicleEvent}
use vehicle_intelligence.Rules.{
  RuleConditionOperator, eq, neq, in_list, not_in, contains, exists, Value, null, text, boolean,
  number, array, sequence, object, RuleCondition, Rule,
}
use vehicle_intelligence.Rules.Evaluator.{
  Actual, texts, is_in, holds_value, matches_condition, context, lookup, matches_all, matches,
  and_then, supported_rule_fields, is_listing, is_text, check, operator_fits, validate_condition,
  validate_conditions,
}
use vehicle_intelligence.Rules.Actions.{SplitUrl, validate}

-- The outcome of one condition.
abbrev pub evaluate : Dict Actual → RuleCondition → Result Bool
evaluate values c = do
  actual ← lookup (get values c.field)
  matches_condition c.operator actual c.value

-- A condition that raises does not hold.
abbrev pub holds : Result Bool → Bool
holds (ok b) = b
holds (err _) = false

is_in_listing :
    (actual : Actual) (v : Value)
    → check (is_listing v) ≡ ok done
    → (b : Bool) × (is_in actual v ≡ ok b)
is_in_listing actual (array vs) h = (_, refl)
is_in_listing actual (sequence vs) h = (_, refl)
is_in_listing actual null h = ground arith
is_in_listing actual (text s) h = ground arith
is_in_listing actual (boolean b) h = ground arith
is_in_listing actual (number n) h = ground arith
is_in_listing actual (object keys) h = ground arith

-- A listed key has an entry.
get-member :
    {V : Type 0} (d : Dict V) (k : Str)
    → member k (map (λ entry. entry.0) d) ≡ true
    → (v : V) × (get d k ≡ some v)
get-member [] k h = ground arith
get-member ((j, w) ∷ d) k h = elim (Bool-cases (j == k)) [
  | inl here ↦ (w, rw here refl)
  | inr elsewhere ↦
      let (v, found) = get-member d k (ground (arith, h, eq_iff j k, eq_iff k j)) in
      (v, rw elsewhere found)
]

checked : (b : Bool) → check b ≡ ok done → b ≡ true
checked true h = refl
checked false h = ground arith

context_lookup :
    {C X : Type 0} (event : VehicleEvent C X) (watchlists : List Str) (field : Str)
    → check (member field supported_rule_fields) ≡ ok done
    → (actual : Actual) × (get (context event watchlists) field ≡ some actual)
unfolding context
context_lookup event watchlists field h =
    get-member (context event watchlists) field (checked (member field supported_rule_fields) h)

get-watchlist :
    {C X : Type 0} (event : VehicleEvent C X) (watchlists : List Str) (field : Str)
    → field ≡ codes "watchlist"
    → get (context event watchlists) field ≡ some (texts watchlists)
unfolding context ◌==◌
get-watchlist event watchlists field same = rw same refl

in_texts :
    (watchlists : List Str) (v : Value) → (b : Bool) × (holds_value (texts watchlists) v ≡ ok b)
in_texts watchlists null = (_, refl)
in_texts watchlists (text s) = (_, refl)
in_texts watchlists (boolean b) = (_, refl)
in_texts watchlists (number n) = (_, refl)
in_texts watchlists (array vs) = (_, refl)
in_texts watchlists (sequence vs) = (_, refl)
in_texts watchlists (object keys) = (_, refl)

operator_total :
    (operator : RuleConditionOperator) (actual : Actual) (field : Str) (value : Value)
    (watchlists : List Str)
    → (field ≡ codes "watchlist" → actual ≡ texts watchlists)
    → operator_fits operator field value ≡ ok done
    → (b : Bool) × (matches_condition operator actual value ≡ ok b)
unfolding operator_fits matches_condition
operator_total eq actual field value watchlists shape h = (_, refl)
operator_total neq actual field value watchlists shape h = (_, refl)
operator_total in_list actual field value watchlists shape h = is_in_listing actual value h
operator_total not_in actual field value watchlists shape h =
    let (b, found) = is_in_listing actual value h in (not b, rw found refl)
operator_total contains actual field value watchlists shape h = contains_total value h
  where
    contains_total :
        (v : Value)
        → (check (field == codes "watchlist") >> check (is_text v)) ≡ ok done
        → (b : Bool) × (holds_value actual v ≡ ok b)
    contains_total v k = elim (Bool-cases (field == codes "watchlist")) [
      | inr other ↦ ground (arith, k, other)
      | inl watched ↦
          rw (shape ((eq_iff field (codes "watchlist")).0 watched)) (in_texts watchlists v)
    ]
operator_total exists actual field value watchlists shape h = (_, refl)

evaluate_total :
    {C X : Type 0} (event : VehicleEvent C X) (watchlists : List Str) (c : RuleCondition)
    → validate_condition c ≡ ok done
    → (b : Bool) × (evaluate (context event watchlists) c ≡ ok b)
unfolding validate_condition
evaluate_total event watchlists c h = elim (Bool-cases (member c.field supported_rule_fields)) [
  | inr unknown ↦ ground (arith, h, unknown)
  | inl known ↦
      let (actual, found) = context_lookup event watchlists c.field (rw known refl) in
      let fits : operator_fits c.operator c.field c.value ≡ ok done = ground (arith, h, known) in
      let (b, result) =
        operator_total c.operator actual c.field c.value watchlists
          (λ same. some-injective (sym found ∙ get-watchlist event watchlists c.field same)) fits in
      (b, rw (found, result) refl)
]
  where
    some-injective : {A : Type 0} {a b : A} → some a ≡ some b → a ≡ b
    some-injective h = ground arith

chain :
    {A B D : Type 0} (r : Result A) (f : A → Result B) (g : B → Result D)
    → (r >>= (λ a. f a >>= g)) ≡ ((r >>= f) >>= g)
chain (ok a) f g = refl
chain (err e) f g = refl

step :
    {rest : Bool} {first : Result Bool} (b : Bool) (others : Result Bool)
    → first ≡ ok b
    → others ≡ ok rest
    → (first >>= (λ found. and_then found others)) ≡ ok (if holds first then rest else false)
step true others h k = rw (h, k) refl
step false others h k = rw h refl

matches_all_total :
    {C X : Type 0} (event : VehicleEvent C X) (watchlists : List Str) (cs : List RuleCondition)
    → validate_conditions cs ≡ ok done
    → matches_all (context event watchlists) cs
      ≡ ok (all (λ c. holds (evaluate (context event watchlists) c)) cs)
unfolding validate_conditions matches_all
matches_all_total event watchlists [] h = refl
matches_all_total event watchlists (c ∷ cs) h = elim (Result-cases (validate_condition c)) [
  | inr (e, raised) ↦ ground (arith, h, raised)
  | inl (u, valid) ↦
      let (b, result) = evaluate_total event watchlists c (valid ∙ ap ok (is_done u)) in
      let rest =
        matches_all_total event watchlists cs
          (sym (ap (λ r. r >> validate_conditions cs) valid) ∙ h) in
      chain (lookup (get (context event watchlists) c.field))
        (λ actual. matches_condition c.operator actual c.value)
        (λ found. and_then found (matches_all (context event watchlists) cs))
      ∙ step b (matches_all (context event watchlists) cs) result rest
]

-- If a rule was validated, its evaluation raises nothing, whatever the event and the active
-- watchlists are: it answers whether the rule is enabled and each of its conditions holds.
pub validated-matches :
    {M C X : Type 0} (urlsplit : Str → Result SplitUrl) (rule : Rule M) (event : VehicleEvent C X)
    (watchlists : List Str)
    → validate urlsplit rule ≡ ok done
    → matches rule event watchlists
      ≡ ok
          (rule.enabled && all (λ c. holds (evaluate (context event watchlists) c)) rule.conditions)
unfolding validate matches
validated-matches urlsplit rule event watchlists h =
    elim (Result-cases (validate_conditions rule.conditions)) [
      | inr (e, raised) ↦ ground (arith, h, raised)
      | inl (u, valid) ↦
          rw (matches_all_total event watchlists rule.conditions (valid ∙ ap ok (is_done u)))
            (by_enabled rule.enabled _)
    ]
  where
    by_enabled : (enabled b : Bool) → (if not enabled then ok false else ok b) ≡ ok (enabled && b)
    by_enabled true b = refl
    by_enabled false b = refl
