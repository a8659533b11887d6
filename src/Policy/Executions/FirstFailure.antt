-- ===== src/Policy/Executions/FirstFailure.antt =====
-- A first attempt that ends in a retryable error which gives the attempt back.
use vehicle_intelligence.Prelude.{
  ◌-◌, ◌≤◌, ◌≡◌, refl, ap, Str, get, put, get-put_self, none, some, Bool, true, false, ok, err,
  value_error, action_already_running, arith,
}
use vehicle_intelligence.Policy.Executions.{
  ActionExecution, RuleActionType, running, post_init, Repository, store, claim, claim_existing,
  mark_failed, attempts_after,
}
use vehicle_intelligence.Policy.Executions.Engine.{
  RuleEngineConfig, HandlerOutcome, handler_error, Request, Executed, candidate, not_claimed, fail,
  call_handler, after_claim, execute, safe_code,
}
use vehicle_intelligence.Policy.Executions.Retry.{key_of}

module _ (sha256_hex upper : Str → Str) (config : RuleEngineConfig)
    (configured : RuleActionType → Bool) where
  abbrev pub run_first : Request → Str → Repository → Executed
  run_first r code = execute sha256_hex upper config configured r (handler_error code true false)

  mark_failed_refused :
      (r : Request) (code : Str) (executions : Repository)
      → mark_failed
          (put executions
            (key_of sha256_hex upper config configured r)
            (candidate sha256_hex upper config configured r))
          (key_of sha256_hex upper config configured r)
          code
          r.finished
          false
          config.action_max_attempts
          false
        ≡ (
          err value_error,
          put executions
              (key_of sha256_hex upper config configured r)
              (candidate sha256_hex upper config configured r),
        )
  unfolding mark_failed attempts_after store post_init candidate
  mark_failed_refused r code executions = ground (
    arith,
    get-put_self executions (key_of sha256_hex upper config configured r)
        (candidate sha256_hex upper config configured r),
  )

  run_first_lem :
      (r : Request) (code : Str) (executions : Repository)
      → configured r.action_type ≡ true
      → get executions (key_of sha256_hex upper config configured r) ≡ none
      → post_init (candidate sha256_hex upper config configured r)
        ≡ ok (candidate sha256_hex upper config configured r)
      → run_first r code executions ≡ record {
        result = err value_error;
        executions =
            put executions
              (key_of sha256_hex upper config configured r)
              (candidate sha256_hex upper config configured r);
        calls = 1;
      }
  unfolding execute claim after_claim call_handler fail candidate
  run_first_lem r code executions known new fine =
      ground (
        arith,
        known,
        new,
        fine,
        mark_failed_refused r (safe_code sha256_hex upper code) executions,
      )

  execute_running :
      (r : Request) (outcome : HandlerOutcome) (executions : Repository) (f : ActionExecution)
      → get executions (key_of sha256_hex upper config configured r) ≡ some f
      → f.status ≡ running
      → r.now - config.action_claim_stale_seconds ≤ f.updated_at
      → post_init (candidate sha256_hex upper config configured r)
        ≡ ok (candidate sha256_hex upper config configured r)
      → execute sha256_hex upper config configured r outcome executions
        ≡ record { result = err action_already_running; executions = executions; calls = 0 }
  unfolding execute candidate claim claim_existing after_claim not_claimed
  execute_running r outcome executions f found busy recent fine = ground arith

  -- If the handler of a new execution raises a retryable error with `consume_attempt=False`, the
  -- call ends in a ValueError and not in an ActionExecutionError, and the execution stays RUNNING
  -- with one attempt; until it is stale, every later request is refused as already running, with
  -- no call of the handler.
  pub first_unconsumed_failure :
      (r r' : Request) (code : Str) (outcome : HandlerOutcome) (executions : Repository)
      → configured r.action_type ≡ true
      → get executions (key_of sha256_hex upper config configured r) ≡ none
      → post_init (candidate sha256_hex upper config configured r)
        ≡ ok (candidate sha256_hex upper config configured r)
      → key_of sha256_hex upper config configured r' ≡ key_of sha256_hex upper config configured r
      → post_init (candidate sha256_hex upper config configured r')
        ≡ ok (candidate sha256_hex upper config configured r')
      → r'.now - config.action_claim_stale_seconds ≤ r.now
      → ((run_first r code executions).result ≡ err value_error)
        × (get
              (run_first r code executions).executions
              (key_of sha256_hex upper config configured r)
            ≡ some (candidate sha256_hex upper config configured r))
        × ((execute sha256_hex upper config configured r' outcome
              (run_first r code executions).executions).result
            ≡ err action_already_running)
        × ((execute sha256_hex upper config configured r' outcome
              (run_first r code executions).executions).calls
            ≡ 0)
  first_unconsumed_failure r r' code outcome executions known new fine same fine' recent =
      let first = run_first_lem r code executions known new fine in
      let there =
        get-put_self executions (key_of sha256_hex upper config configured r)
          (candidate sha256_hex upper config configured r) in
      let second =
        execute_running r' outcome _ (candidate sha256_hex upper config configured r)
          (rw same there) (unfold candidate in refl) (unfold candidate in recent) fine' in
      rw first
        (refl, there, ap (λ (x : Executed). x.result) second, ap (λ (x : Executed). x.calls) second)
