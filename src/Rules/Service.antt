-- ===== src/Rules/Service.antt =====
-- RuleService (application/policies.py) on the records of InMemoryRuleRepository.
use vehicle_intelligence.Prelude.{
  ℕ, ◌+◌, Str, strip, Dict, Option, List, Bool, Result, ok, ◌>>=◌, ◌>>◌,
}
use vehicle_intelligence.Policy.Versioned.{IsVersioned}
use vehicle_intelligence.Policy.Services.{create_built, update_built, delete_entry}
use vehicle_intelligence.Policy.Watchlists.{given_id}
use vehicle_intelligence.Rules.{Rule, RuleCondition, RuleAction, rule_post_init}
use vehicle_intelligence.Rules.Actions.{SplitUrl, validate}

pub record RuleCreate (M : Type 0) : Type 0 where
  pub name : Str
  pub enabled : Bool
  pub priority : ℕ
  pub conditions : List RuleCondition
  pub actions : List RuleAction
  pub metadata : M
  pub id : Option Str

pub record RuleUpdate (M : Type 0) : Type 0 where
  pub revision : ℕ
  pub name : Str
  pub enabled : Bool
  pub priority : ℕ
  pub conditions : List RuleCondition
  pub actions : List RuleAction
  pub metadata : M

module _ {M : Type 0} where
  abbrev pub rule_fields : IsVersioned (Rule M)
  rule_fields = record { id_of = λ r. r.id; revision_of = λ r. r.revision }

  module _ (urlsplit : Str → Result SplitUrl) where
    -- `self._evaluator.validate(rule)` behind the construction of the rule
    abbrev pub validated : Result (Rule M) → Result (Rule M)
    validated built = do rule ← built; validate urlsplit rule; ok rule

    unfoldable pub new_rule : RuleCreate M → Str → ℕ → Result (Rule M)
    new_rule command fresh_id now = validated (
        rule_post_init (record {
          id = strip (given_id command.id fresh_id);
          name = strip command.name;
          enabled = command.enabled;
          priority = command.priority;
          conditions = command.conditions;
          actions = command.actions;
          created_at = now;
          updated_at = now;
          metadata = command.metadata;
          schema_version = 1;
          revision = 1;
        }))

    unfoldable pub updated_rule : RuleUpdate M → ℕ → Rule M → Result (Rule M)
    updated_rule command now current = validated (
        rule_post_init (record {
          id = current.id;
          name = strip command.name;
          enabled = command.enabled;
          priority = command.priority;
          conditions = command.conditions;
          actions = command.actions;
          created_at = current.created_at;
          updated_at = now;
          metadata = command.metadata;
          schema_version = current.schema_version;
          revision = current.revision + 1;
        }))

    unfoldable pub create_rule :
        Dict (Rule M) → RuleCreate M → Str → ℕ → Result (Rule M × Dict (Rule M))
    create_rule rules command fresh_id now =
        create_built rule_fields rules (new_rule command fresh_id now)

    unfoldable pub update_rule :
        Dict (Rule M) → Dict (Rule M) → Str → RuleUpdate M → ℕ → Result (Rule M × Dict (Rule M))
    update_rule seen rules rule_id command now =
        update_built rule_fields seen rules rule_id command.revision (updated_rule command now)

  unfoldable pub delete_rule : Dict (Rule M) → Str → Result (Dict (Rule M))
  delete_rule rules rule_id = delete_entry rule_fields rules rule_id
