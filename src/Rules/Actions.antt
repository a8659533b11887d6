-- ===== src/Rules/Actions.antt =====
-- RuleEvaluator._validate_action and validate (application/rules.py).
use vehicle_intelligence.Prelude.{
  Str, codes, strip, is_empty, member, get, not, if◌then◌else◌, Option, none, some, is_some, List,
  [], ◌∷◌, Bool, true, false, ◌&&◌, ◌||◌, Result, ok, err, ◌>>=◌, ◌>>◌, Done, done,
  rule_validation_error, type_error,
}
use vehicle_intelligence.Policy.Executions.{
  RuleActionType, open_barrier, create_alert, webhook, http_request, notification,
}
use vehicle_intelligence.Rules.{
  Value, null, text, array, sequence, object, Values, end, cons, RuleAction, Rule,
}
use vehicle_intelligence.Rules.Evaluator.{check, validate_conditions}

-- what is read of a split URL
pub record SplitUrl : Type 0 where
  pub scheme : Str
  pub hostname : Option Str
  pub username : Option Str
  pub password : Option Str

abbrev pub is_external : RuleActionType → Bool
is_external open_barrier = true
is_external webhook = true
is_external http_request = true
is_external notification = true
is_external _ = false

abbrev pub is_create_alert : RuleActionType → Bool
is_create_alert create_alert = true
is_create_alert _ = false

abbrev mutual
  pub is_hashable : Value → Bool
  is_hashable (array vs) = false
  is_hashable (object keys) = false
  is_hashable (sequence vs) = are_hashable vs
  is_hashable _ = true

  pub are_hashable : Values → Bool
  are_hashable end = true
  are_hashable (cons v vs) = is_hashable v && are_hashable vs

-- value in {…} of texts
abbrev pub in_set : Value → List Str → Result Bool
in_set (text s) names = ok (member s names)
in_set v names = if is_hashable v then ok false else err type_error

abbrev pub methods : List Str
methods = codes "GET" ∷ codes "POST" ∷ codes "PUT" ∷ codes "PATCH" ∷ []

abbrev pub severities : List Str
severities = codes "INFO" ∷ codes "LOW" ∷ codes "MEDIUM" ∷ codes "HIGH" ∷ codes "CRITICAL" ∷ []

abbrev pub has_host : Option Str → Bool
has_host none = false
has_host (some host) = not (is_empty host)

abbrev pub is_allowed_url : SplitUrl → Bool
is_allowed_url parsed =
    member parsed.scheme (codes "http" ∷ codes "https" ∷ [])
    && has_host parsed.hostname
    && not (is_some parsed.username || is_some parsed.password)

-- parameters.get(key) that is None or absent is not looked at
abbrev pub validate_message : Option Value → Result Done
validate_message none = ok done
validate_message (some null) = ok done
validate_message (some (text s)) = check (not (is_empty (strip s)))
validate_message (some _) = err rule_validation_error

abbrev pub validate_severity : Option Value → Result Done
validate_severity none = ok done
validate_severity (some null) = ok done
validate_severity (some v) = do known ← in_set v severities; check known

abbrev pub method_of : Option Value → Value
method_of none = text (codes "POST")
method_of (some v) = v

module _ (urlsplit : Str → Result SplitUrl) where
  abbrev pub validate_url : Option Value → Result Done
  validate_url (some (text url)) = do parsed ← urlsplit url; check (is_allowed_url parsed)
  validate_url _ = err rule_validation_error

  unfoldable pub validate_action : RuleAction → Result Done
  validate_action action = do
    if is_external action.type
        then (do
          validate_url (get action.parameters (codes "url"))
          known ← in_set (method_of (get action.parameters (codes "method"))) methods
          check known)
        else ok done
    if is_create_alert action.type
        then (do
          validate_message (get action.parameters (codes "message"))
          validate_severity (get action.parameters (codes "severity")))
        else ok done

  unfoldable pub validate_actions : List RuleAction → Result Done
  validate_actions [] = ok done
  validate_actions (a ∷ rest) = let others = validate_actions rest in do validate_action a; others

  unfoldable pub validate : {M : Type 0} → Rule M → Result Done
  validate rule = do validate_conditions rule.conditions; validate_actions rule.actions
