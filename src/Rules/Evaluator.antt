-- ===== src/Rules/Evaluator.antt =====
-- RuleEvaluator (application/rules.py).
use vehicle_intelligence.Prelude.{
  Str, ◌==◌, codes, is_empty, member, Dict, get, not, if◌then◌else◌, Option, none, some, List, [],
  ◌∷◌, Bool, true, false, Result, ok, err, ◌>>=◌, ◌>>◌, Done, done, rule_validation_error,
  type_error, key_error,
}
use vehicle_intelligence.Events.{
  VehicleEvent, PlateEvidence, final_normalized, direction_value, event_type_value,
  event_status_value,
}
use vehicle_intelligence.Rules.{
  RuleConditionOperator, eq, neq, in_list, not_in, contains, exists, Value, null, text, boolean,
  array, sequence, object, Values, end, cons, RuleCondition, Rule,
}

-- a value of the context: None, a text, or the tuple of the watchlist types
pub data Actual : Type 0 where
  absent : Actual
  present : Str → Actual
  texts : List Str → Actual

-- (text, …) == (value, …)
abbrev pub same_texts : List Str → Values → Bool
same_texts [] end = true
same_texts (s ∷ ss) (cons (text t) vs) =
    let rest = same_texts ss vs in if s == t then rest else false
same_texts _ _ = false

-- actual == expected
abbrev pub equals : Actual → Value → Bool
equals absent null = true
equals (present s) (text t) = s == t
equals (texts ss) (sequence vs) = same_texts ss vs
equals _ _ = false

abbrev pub is_among : Actual → Values → Bool
is_among a end = false
is_among a (cons v vs) = let rest = is_among a vs in if equals a v then true else rest

abbrev pub begins_with : Str → Str → Bool
begins_with [] s = true
begins_with (x ∷ xs) [] = false
begins_with (x ∷ xs) (y ∷ ys) =
    let rest = begins_with xs ys in if (x ∷ []) == (y ∷ []) then rest else false

-- part in whole, of two texts
abbrev pub is_part : Str → Str → Bool
is_part part [] = is_empty part
is_part part (y ∷ ys) =
    let rest = is_part part ys in if begins_with part (y ∷ ys) then true else rest

-- actual in expected
abbrev pub is_in : Actual → Value → Result Bool
is_in a (array vs) = ok (is_among a vs)
is_in a (sequence vs) = ok (is_among a vs)
is_in (present s) (text t) = ok (is_part s t)
is_in (present s) (object keys) = ok (member s keys)
is_in _ (object keys) = ok false
is_in _ _ = err type_error

-- expected in actual
abbrev pub holds_value : Actual → Value → Result Bool
holds_value absent v = err type_error
holds_value (present s) (text t) = ok (is_part t s)
holds_value (present s) _ = err type_error
holds_value (texts ss) (text t) = ok (member t ss)
holds_value (texts ss) _ = ok false

abbrev pub is_present : Actual → Bool
is_present absent = false
is_present _ = true

-- b is value
abbrev pub is_boolean : Bool → Value → Bool
is_boolean true (boolean b) = b
is_boolean false (boolean b) = not b
is_boolean _ _ = false

unfoldable pub matches_condition : RuleConditionOperator → Actual → Value → Result Bool
matches_condition eq actual expected = ok (equals actual expected)
matches_condition neq actual expected = ok (not (equals actual expected))
matches_condition in_list actual expected = is_in actual expected
matches_condition not_in actual expected = do found ← is_in actual expected; ok (not found)
matches_condition contains actual expected = holds_value actual expected
matches_condition exists actual expected = ok (is_boolean (is_present actual) expected)

abbrev pub optional : Option Str → Actual
optional none = absent
optional (some s) = present s

module _ {C X : Type 0} where
  abbrev pub read_plate : Option (PlateEvidence C X) → Actual
  read_plate none = absent
  read_plate (some plate) = present (final_normalized plate)

  -- `watchlists` are the values of the list types of the active entries
  unfoldable pub context : VehicleEvent C X → List Str → Dict Actual
  context event watchlists =
      (codes "watchlist", texts watchlists)
      ∷ (codes "camera.id", present event.camera.id)
      ∷ (codes "camera.zone", optional event.camera.zone)
      ∷ (codes "direction", present (direction_value event.direction))
      ∷ (codes "eventType", present (event_type_value event.event_type))
      ∷ (codes "status", present (event_status_value event.status))
      ∷ (codes "plate.normalized", read_plate event.plate)
      ∷ (codes "vehicle.type", present event.vehicle.type)
      ∷ (codes "vehicle.color", optional event.vehicle.color)
      ∷ []

-- context[field]
abbrev pub lookup : Option Actual → Result Actual
lookup none = err key_error
lookup (some actual) = ok actual

-- one round of `all(…)`: the rest is asked only if the condition holds
abbrev pub and_then : Bool → Result Bool → Result Bool
and_then true rest = rest
and_then false rest = ok false

unfoldable pub matches_all : Dict Actual → List RuleCondition → Result Bool
matches_all values [] = ok true
matches_all values (c ∷ cs) =
    let rest = matches_all values cs in
    do
      actual ← lookup (get values c.field)
      found ← matches_condition c.operator actual c.value
      and_then found rest

unfoldable pub matches : {M C X : Type 0} → Rule M → VehicleEvent C X → List Str → Result Bool
matches rule event watchlists =
    if not rule.enabled then ok false else matches_all (context event watchlists) rule.conditions

abbrev pub supported_rule_fields : List Str
supported_rule_fields =
    codes "watchlist"
    ∷ codes "camera.id"
    ∷ codes "camera.zone"
    ∷ codes "direction"
    ∷ codes "eventType"
    ∷ codes "status"
    ∷ codes "plate.normalized"
    ∷ codes "vehicle.type"
    ∷ codes "vehicle.color"
    ∷ []

-- isinstance(value, (list, tuple)) and value
abbrev pub is_listing : Value → Bool
is_listing (array (cons v vs)) = true
is_listing (sequence (cons v vs)) = true
is_listing _ = false

abbrev pub is_text : Value → Bool
is_text (text s) = true
is_text _ = false

abbrev pub is_bool : Value → Bool
is_bool (boolean b) = true
is_bool _ = false

abbrev pub check : Bool → Result Done
check true = ok done
check false = err rule_validation_error

unfoldable pub operator_fits : RuleConditionOperator → Str → Value → Result Done
operator_fits in_list field value = check (is_listing value)
operator_fits not_in field value = check (is_listing value)
operator_fits contains field value = do check (field == codes "watchlist"); check (is_text value)
operator_fits exists field value = check (is_bool value)
operator_fits _ field value = ok done

unfoldable pub validate_condition : RuleCondition → Result Done
validate_condition c = do
  check (member c.field supported_rule_fields)
  operator_fits c.operator c.field c.value

unfoldable pub validate_conditions : List RuleCondition → Result Done
validate_conditions [] = ok done
validate_conditions (c ∷ cs) = let rest = validate_conditions cs in do validate_condition c; rest
