-- ===== src/Tests/PolicyTests.antt =====
-- Alerts and action executions at concrete inputs.
use vehicle_intelligence.Prelude.{
  ℕ, ◌+◌, ◌≤◌, ◌≡◌, refl, Str, ◌==◌, strip, is_empty, codes, get, [], ◌∷◌, none, some, ok, err,
  true, false, Bool, if◌then◌else◌, ◌⊎◌, arith, value_error, action_already_running,
}
use vehicle_intelligence.Policy.Alerts.{
  Alert, opened, resolved, high, Repository, transition, plan, plan_from, required, commit,
  transitioned, post_init, replace,
}
use vehicle_intelligence.Policy.Alerts.Transitions.{IsStep, transition_ok}
use vehicle_intelligence.Policy.Executions
use vehicle_intelligence.Policy.Versioned
use vehicle_intelligence.Policy.Executions.{RuleActionType, webhook, any_blank, running}
use vehicle_intelligence.Policy.Executions.Engine.{
  RuleEngineConfig, returned, timed_out, Request, candidate, execute, action_execution_id,
  after_claim, call_handler,
}
use vehicle_intelligence.Policy.Executions.Retry.{
  key_of, retry, retry-le_max_attempts, execute-after_success,
}
use vehicle_intelligence.Policy.Executions.FirstFailure.{run_first, first_unconsumed_failure}

abbrev config : RuleEngineConfig
config = record { action_max_attempts = 2; action_claim_stale_seconds = 60 }

-- any function may stand for the digest
abbrev digest : Str → Str
digest s = s

abbrev same_case : Str → Str
same_case s = s

abbrev all_configured : RuleActionType → Bool
all_configured _ = true

abbrev request : ℕ → Request
request now = record {
  event_id = codes "e";
  rule_id = codes "r";
  action_id = codes "a";
  action_type = webhook;
  now = now;
  finished = now + 1;
}

abbrev key : Str
key = key_of digest same_case config all_configured (request 0)

retry-le_max_attempts_example :
    (retry digest same_case config all_configured
      ((request 0, timed_out) ∷ (request 1, timed_out) ∷ (request 2, returned) ∷ [])
      []).0
    ≤ 2
retry-le_max_attempts_example =
    retry-le_max_attempts digest same_case config all_configured
      ((request 0, timed_out) ∷ (request 1, timed_out) ∷ (request 2, returned) ∷ []) [] key
      (omega arith) refl ((refl, tt), ((refl, tt), ((refl, tt), tt)))

candidate_fine :
    (now : ℕ)
    → Executions.post_init (candidate digest same_case config all_configured (request now))
      ≡ ok (candidate digest same_case config all_configured (request now))
unfolding Executions.post_init candidate any_blank strip action_execution_id
candidate_fine now = refl

first_succeeds :
    (execute digest same_case config all_configured (request 0) returned []).result ≡ ok true
unfolding execute candidate Executions.post_init any_blank strip action_execution_id
    Executions.claim after_claim call_handler Executions.mark_succeeded Executions.store ◌==◌
first_succeeds = refl

execute-after_success_example :
    execute digest same_case config all_configured
      (request 9)
      timed_out
      (execute digest same_case config all_configured (request 0) returned []).executions
    ≡ record {
      result = ok false;
      executions =
          (execute digest same_case config all_configured (request 0) returned []).executions;
      calls = 0;
    }
execute-after_success_example =
    execute-after_success digest same_case config all_configured (request 0) (request 9) returned
      timed_out [] refl refl refl (λ e found. cc) first_succeeds

first_unconsumed_failure_example :
    ((run_first digest same_case config all_configured
        (request 100)
        (codes "CIRCUIT_OPEN")
        []).result
      ≡ err value_error)
    × (get
          (run_first digest same_case config all_configured
            (request 100)
            (codes "CIRCUIT_OPEN")
            []).executions
          key
        ≡ some (candidate digest same_case config all_configured (request 100)))
    × ((execute digest same_case config all_configured
          (request 110)
          returned
          (run_first digest same_case config all_configured
            (request 100)
            (codes "CIRCUIT_OPEN")
            []).executions).result
        ≡ err action_already_running)
    × ((execute digest same_case config all_configured
          (request 110)
          returned
          (run_first digest same_case config all_configured
            (request 100)
            (codes "CIRCUIT_OPEN")
            []).executions).calls
        ≡ 0)
first_unconsumed_failure_example =
    first_unconsumed_failure digest same_case config all_configured (request 100) (request 110)
      (codes "CIRCUIT_OPEN") returned [] refl refl (candidate_fine 100) refl (candidate_fine 110)
      (omega arith)

abbrev alert : Alert ℕ
alert = record {
  id = codes "alr";
  source = record { event_id = codes "e"; execution_id = codes "x"; action_id = codes "a" };
  rule = record { id = codes "r"; name = codes "rule" };
  event = 7;
  severity = high;
  status = opened;
  message = codes "seen";
  created_at = 1;
  updated_at = 1;
  acknowledged_at = none;
  acknowledged_by = none;
  resolved_at = none;
  resolved_by = none;
  schema_version = 1;
  revision = 1;
}

abbrev alerts : Repository ℕ
alerts = record { alerts = (codes "alr", alert) ∷ []; execution_ids = codes "x" ∷ [] }

abbrev closed_alert : Alert ℕ
closed_alert = record alert {
  status = resolved;
  updated_at = 5;
  resolved_at = some 5;
  resolved_by = some (codes "op");
  revision = 2;
}

abbrev alerts_after : Repository ℕ
alerts_after = record alerts { alerts = (codes "alr", closed_alert) ∷ [] }

resolves :
    transition (codes "alr") resolved (codes "op") 5 alerts alerts ≡ ok (closed_alert, alerts_after)
unfolding transition plan plan_from required commit transitioned post_init replace strip ◌==◌
    Versioned.replace Versioned.has_revision
resolves = refl

transition_ok_example :
    (is_empty (strip (codes "op")) ≡ false)
    × ((current : Alert ℕ) × (get alerts.alerts (codes "alr") ≡ some current)
        × (((current.status ≡ resolved) × (closed_alert ≡ current) × (alerts_after ≡ alerts))
            ⊎ (IsStep current closed_alert resolved (strip (codes "op")) 5
                × ((replaced : Alert ℕ) × (get alerts.alerts current.id ≡ some replaced)
                    × (replaced.revision ≡ current.revision))
                × ((k : Str)
                    → get alerts_after.alerts k
                      ≡ (if current.id == k then some closed_alert else get alerts.alerts k)))))
transition_ok_example =
    transition_ok (codes "alr") (codes "op") resolved 5 alerts alerts closed_alert alerts_after
      (λ e. cc) resolves
