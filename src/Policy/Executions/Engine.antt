-- ===== src/Policy/Executions/Engine.antt =====
-- ActionEngine of application/actions.py. The handler is outside of the model: what its call ends
-- in is an input. So are SHA-256 and `str.upper`.
use vehicle_intelligence.Prelude.{
  ℕ, ◌-◌, Str, codes, get, is_empty, Option, none, some, [], ◌∷◌, ◌++◌, take, Bool, true, false,
  ◌&&◌, ◌||◌, not, leb, eqb, if◌then◌else◌, Result, ok, err, action_claim_lost,
  action_already_running, action_failed,
}
use vehicle_intelligence.Policy.Executions.{
  ActionExecution, RuleActionType, running, is_succeeded, is_failed, post_init, Repository, Outcome,
  claim, mark_succeeded, mark_failed,
}

pub record RuleEngineConfig : Type 0 where
  pub action_max_attempts : ℕ
  pub action_claim_stale_seconds : ℕ

-- how `handler.execute` ends, within the timeout or not
pub data HandlerOutcome : Type 0 where
  returned : HandlerOutcome
  timed_out : HandlerOutcome
  -- ActionHandlerError(code, retryable=…, consume_attempt=…)
  handler_error : Str → Bool → Bool → HandlerOutcome
  other_error : HandlerOutcome

-- an event, rule and action to execute, with the two readings of the clock
pub record Request : Type 0 where
  pub event_id : Str
  pub rule_id : Str
  pub action_id : Str
  pub action_type : RuleActionType
  pub now : ℕ
  pub finished : ℕ

-- the result, the repository, and the number of calls of the handler
pub record Executed : Type 0 where
  pub result : Result Bool
  pub executions : Repository
  pub calls : ℕ

-- [A-Z0-9_]
unfoldable pub is_code_character : ℕ → Bool
is_code_character c = (leb 65 c && leb c 90) || (leb 48 c && leb c 57) || eqb c 95

-- `_SAFE_CODE.sub("_", value)`; the flag says that the last character was replaced
unfoldable pub replace_unsafe : Bool → Str → Str
replace_unsafe replaced [] = []
replace_unsafe replaced (c ∷ s) =
    let kept = c ∷ replace_unsafe false s in
    let dropped = replace_unsafe true s in
    if is_code_character c then kept else if replaced then dropped else 95 ∷ dropped

-- .strip("_")
unfoldable pub strip_underscores_left : Str → Str
strip_underscores_left [] = []
strip_underscores_left (c ∷ s) =
    let rest = strip_underscores_left s in if eqb c 95 then rest else c ∷ s

unfoldable pub strip_underscores_right : Str → Str
strip_underscores_right [] = []
strip_underscores_right (c ∷ s) =
    let rest = strip_underscores_right s in if is_empty rest && eqb c 95 then [] else c ∷ rest

abbrev pub raise_after : Result ActionExecution → Result Bool
raise_after (ok _) = err action_failed
raise_after (err x) = err x

abbrev pub return_after : Result ActionExecution → Result Bool
return_after (ok _) = ok true
return_after (err x) = err x

module _ (sha256_hex upper : Str → Str) where
  -- f"act_{sha256(f'{event_id}|{rule_id}|{action_id}').hexdigest()[:40]}"
  unfoldable pub action_execution_id : Str → Str → Str → Str
  action_execution_id event_id rule_id action_id =
      codes "act_"
      ++ take 40 (sha256_hex (event_id ++ (codes "|" ++ (rule_id ++ (codes "|" ++ action_id)))))

  unfoldable pub safe_code : Str → Str
  safe_code value =
      let normalized =
        strip_underscores_right (strip_underscores_left (replace_unsafe false (upper value))) in
      take 64 (if is_empty normalized then codes "ACTION_FAILED" else normalized)

  module _ (config : RuleEngineConfig) (configured : RuleActionType → Bool) where
    unfoldable pub candidate : Request → ActionExecution
    candidate r = record {
      id = action_execution_id r.event_id r.rule_id r.action_id;
      event_id = r.event_id;
      rule_id = r.rule_id;
      action_id = r.action_id;
      action_type = r.action_type;
      status = running;
      attempt_count = 1;
      created_at = r.now;
      updated_at = r.now;
      completed_at = none;
      error_code = none;
      schema_version = 1;
    }

    -- `claimed is None`: what is raised or returned, by the execution as it stands
    unfoldable pub not_claimed : Option ActionExecution → Result Bool
    not_claimed none = err action_claim_lost
    not_claimed (some current) =
        if is_succeeded current.status
        then ok false
        else if is_failed current.status && leb config.action_max_attempts current.attempt_count
        then ok false
        else err action_already_running

    -- `_record_failure` and the raise behind it; an exception of the repository goes first
    unfoldable pub fail : Repository → Str → ℕ → Str → Bool → Bool → ℕ → Executed
    fail executions execution_id now code retryable consume_attempt calls =
        let failed =
          mark_failed executions execution_id (safe_code code) now (not retryable)
            config.action_max_attempts consume_attempt in
        record { result = raise_after failed.0; executions = failed.1; calls = calls }

    unfoldable pub call_handler : Repository → Str → ℕ → HandlerOutcome → Executed
    call_handler executions id now returned =
        let done = mark_succeeded executions id now in
        record { result = return_after done.0; executions = done.1; calls = 1 }
    call_handler executions id now timed_out =
        fail executions id now (codes "ACTION_TIMEOUT") true true 1
    call_handler executions id now (handler_error code retryable consume_attempt) =
        fail executions id now code retryable consume_attempt 1
    call_handler executions id now other_error =
        fail executions id now (codes "ACTION_HANDLER_ERROR") true true 1

    unfoldable pub after_claim :
        Request → HandlerOutcome → Outcome (Option ActionExecution) → Executed
    after_claim r outcome (err x, executions) = record {
      result = err x;
      executions = executions;
      calls = 0;
    }
    after_claim r outcome (ok none, executions) = record {
      result = not_claimed (get executions (action_execution_id r.event_id r.rule_id r.action_id));
      executions = executions;
      calls = 0;
    }
    after_claim r outcome (ok (some e), executions) =
        if configured r.action_type
        then call_handler executions e.id r.finished outcome
        else fail executions e.id r.finished (codes "ACTION_HANDLER_NOT_CONFIGURED") false true 0

    unfoldable pub execute : Request → HandlerOutcome → Repository → Executed
    execute r outcome executions = elim (post_init (candidate r)) [
      | err x ↦ record { result = err x; executions = executions; calls = 0 }
      | ok e ↦ after_claim r outcome (
          claim executions e (r.now - config.action_claim_stale_seconds) config.action_max_attempts)
    ]
