-- ===== src/Rules.antt =====
-- Rules: the records (domain/policy.py) and their evaluation (application/rules.py).
-- A condition's value and an action's parameters are JSON data. urllib.parse.urlsplit is a parameter.
pub mod Evaluator
pub mod Actions
pub mod Validated
pub mod Service
pub mod Cache
pub mod Processing
pub mod History
use vehicle_intelligence.Prelude.{
  ℕ, Str, ◌==◌, codes, strip, is_empty, member, ltb, if◌then◌else◌, List, [], ◌∷◌, map, Bool, true,
  false, ◌||◌, not, Result, ok, err, value_error, all, any,
}
use vehicle_intelligence.Policy.Executions.{RuleActionType}
use vehicle_intelligence.Prelude.{Dict}

pub data RuleConditionOperator : Type 0 where
  eq neq in_list not_in contains exists : RuleConditionOperator

-- `object`, as far as a rule tells one from another: a number is never equal to what it is compared
-- with, and of a dict only the keys are read.
mutual
  pub data Value : Type 0 where
    null : Value
    text : Str → Value
    boolean : Bool → Value
    number : ℕ → Value
    array : Values → Value
    sequence : Values → Value
    object : List Str → Value

  pub data Values : Type 0 where
    end : Values
    cons : Value → Values → Values

pub record RuleCondition : Type 0 where
  pub field : Str
  pub operator : RuleConditionOperator
  pub value : Value

pub record RuleAction : Type 0 where
  pub id : Str
  pub type : RuleActionType
  pub parameters : Dict Value

-- M stands for the metadata, which is only carried.
pub record Rule (M : Type 0) : Type 0 where
  pub id : Str
  pub name : Str
  pub enabled : Bool
  pub priority : ℕ
  pub conditions : List RuleCondition
  pub actions : List RuleAction
  pub created_at : ℕ
  pub updated_at : ℕ
  pub metadata : M
  pub schema_version : ℕ
  pub revision : ℕ

-- len(ids) != len(set(ids))
abbrev pub has_duplicate : List Str → Bool
has_duplicate [] = false
has_duplicate (x ∷ xs) = let rest = has_duplicate xs in if member x xs then true else rest

abbrev is_nil : {A : Type 0} → List A → Bool
is_nil [] = true
is_nil (_ ∷ _) = false

-- RuleCondition.__post_init__
unfoldable pub condition_post_init : RuleCondition → Result RuleCondition
condition_post_init c = if is_empty (strip c.field) then err value_error else ok c

-- RuleAction.__post_init__
unfoldable pub action_post_init : RuleAction → Result RuleAction
action_post_init a = if is_empty (strip a.id) then err value_error else ok a

-- Rule.__post_init__
unfoldable pub rule_post_init : {M : Type 0} → Rule M → Result (Rule M)
rule_post_init r =
    if is_empty (strip r.id) || is_empty (strip r.name)
    then err value_error
    else if is_nil r.conditions || is_nil r.actions
    then err value_error
    else if has_duplicate (map (λ a. a.id) r.actions)
    then err value_error
    else if ltb r.schema_version 1 || ltb r.revision 1
    then err value_error
    else ok r
