-- ===== src/Policy/Executions.antt =====
-- The record of one rule action's execution (domain/policy.py), its repository
-- (infrastructure/persistence/policy_memory.py) and the engine that drives it
-- (application/actions.py). A timestamp is an aware instant, in microseconds.
pub mod Attempts
pub mod Engine
pub mod Retry
pub mod FirstFailure
use vehicle_intelligence.Prelude.{
  ℕ, zero, suc, ◌+◌, ◌-◌, ◌*◌, Str, codes, strip, is_empty, Dict, get, put, ltb, leb, max, any,
  if◌then◌else◌, Option, none, some, is_some, List, [], ◌∷◌, ◌++◌, take, Bool, true, false, not,
  ◌&&◌, ◌||◌, Result, ok, err, value_error, persistence_error, action_claim_lost,
  action_already_running, action_failed,
}

pub data RuleActionType : Type 0 where
  open_barrier create_alert webhook http_request notification log : RuleActionType

pub data ActionExecutionStatus : Type 0 where
  running succeeded failed : ActionExecutionStatus

pub record ActionExecution : Type 0 where
  pub id : Str
  pub event_id : Str
  pub rule_id : Str
  pub action_id : Str
  pub action_type : RuleActionType
  pub status : ActionExecutionStatus
  pub attempt_count : ℕ
  pub created_at : ℕ
  pub updated_at : ℕ
  pub completed_at : Option ℕ
  pub error_code : Option Str
  pub schema_version : ℕ

abbrev pub is_succeeded : ActionExecutionStatus → Bool
is_succeeded succeeded = true
is_succeeded _ = false

abbrev pub is_failed : ActionExecutionStatus → Bool
is_failed failed = true
is_failed _ = false

abbrev pub is_running : ActionExecutionStatus → Bool
is_running running = true
is_running _ = false

-- any(not value.strip() for value in values)
unfoldable pub any_blank : List Str → Bool
any_blank values = any (λ value. is_empty (strip value)) values

-- ActionExecution.__post_init__, which every construction and every `replace` runs
unfoldable pub post_init : ActionExecution → Result ActionExecution
post_init e =
    if any_blank (e.id ∷ e.event_id ∷ e.rule_id ∷ e.action_id ∷ [])
    then err value_error
    else if ltb e.attempt_count 1
    then err value_error
    else if is_succeeded e.status && not (is_some e.completed_at)
    then err value_error
    else if ltb e.schema_version 1
    then err value_error
    else ok e

-- InMemoryActionExecutionRepository
abbrev pub Repository : Type 0
Repository = Dict ActionExecution

abbrev pub Outcome : Type 0 → Type 0
Outcome A = Result A × Repository

-- `self._executions[key] = replace(...)`: an exception leaves the repository as it was
unfoldable pub store : Repository → Str → Result ActionExecution → Outcome ActionExecution
store executions key (ok e) = (ok e, put executions key e)
store executions key (err x) = (err x, executions)

abbrev pub claimed : Outcome ActionExecution → Outcome (Option ActionExecution)
claimed (ok e, executions) = (ok (some e), executions)
claimed (err x, executions) = (err x, executions)

-- the branches of `claim` on an execution that is there
unfoldable pub claim_existing :
    Repository → ActionExecution → ActionExecution → ℕ → ℕ → Outcome (Option ActionExecution)
claim_existing executions current execution stale_before maximum_attempts =
    if is_succeeded current.status
    then (ok none, executions)
    else if leb maximum_attempts current.attempt_count
    then (ok none, executions)
    else if is_running current.status && leb stale_before current.updated_at
    then (ok none, executions)
    else claimed (
        store executions execution.id (
          post_init (record current {
            status = running;
            attempt_count = current.attempt_count + 1;
            updated_at = execution.updated_at;
            completed_at = none;
            error_code = none;
          })))

unfoldable pub claim : Repository → ActionExecution → ℕ → ℕ → Outcome (Option ActionExecution)
claim executions execution stale_before maximum_attempts = elim (get executions execution.id) [
  | none ↦ (ok (some execution), put executions execution.id execution)
  | some current ↦ claim_existing executions current execution stale_before maximum_attempts
]

unfoldable pub mark_succeeded : Repository → Str → ℕ → Outcome ActionExecution
mark_succeeded executions execution_id timestamp = elim (get executions execution_id) [
  | none ↦ (err persistence_error, executions)
  | some current ↦ store executions execution_id (
      post_init (record current {
        status = succeeded;
        completed_at = some timestamp;
        updated_at = timestamp;
        error_code = none;
      }))
]

unfoldable pub attempts_after : ActionExecution → Bool → ℕ → Bool → ℕ
attempts_after current terminal maximum_attempts consume_attempt =
    if terminal
    then maximum_attempts
    else max 0 (current.attempt_count - (if consume_attempt then 0 else 1))

unfoldable pub mark_failed : Repository → Str → Str → ℕ → Bool → ℕ → Bool → Outcome ActionExecution
mark_failed executions execution_id error_code timestamp terminal maximum_attempts consume_attempt =
    elim (get executions execution_id) [
      | none ↦ (err persistence_error, executions)
      | some current ↦ store executions execution_id (
          post_init (record current {
            status = failed;
            attempt_count = attempts_after current terminal maximum_attempts consume_attempt;
            completed_at = some timestamp;
            updated_at = timestamp;
            error_code = some error_code;
          }))
    ]
