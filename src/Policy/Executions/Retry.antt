-- ===== src/Policy/Executions/Retry.antt =====
-- Retries of one action for one event: bounded, and over after a success.
use native.Mathlib.Nat.{add_assoc}
use vehicle_intelligence.Prelude.{
  ℕ, ◌+◌, ◌-◌, ◌≤◌, ◌<◌, ◌≡◌, refl, sym, ap, ◌∙◌, Str, get, get-put_self, Option, none, some, List,
  [], ◌∷◌, Bool, true, false, Result, ok, err, arith, Option-cases, Bool-cases, Result-cases, inl,
  inr, All, ◌≢◌, if◌then◌else◌,
}
use vehicle_intelligence.Policy.Executions.{
  ActionExecution, RuleActionType, succeeded, post_init, Repository, store, claim, claim_existing,
  mark_succeeded,
}
use vehicle_intelligence.Policy.Executions.Engine.{
  RuleEngineConfig, HandlerOutcome, returned, timed_out, handler_error, other_error, Request,
  action_execution_id, candidate, not_claimed, fail, call_handler, after_claim, execute,
  return_after,
}
use vehicle_intelligence.Policy.Executions.Attempts.{
  attempts, Consumes, is_handed_out, claim-attempts, IsKeyed, claim-IsKeyed, IsCounted,
  fail-IsCounted, call_handler-IsCounted,
}

post_init_same : (e f : ActionExecution) → post_init e ≡ ok f → e ≡ f
unfolding post_init
post_init_same e f h = ground arith

module _ (sha256_hex upper : Str → Str) (config : RuleEngineConfig)
    (configured : RuleActionType → Bool) where
  -- the key of the execution that a request is for
  abbrev pub key_of : Request → Str
  key_of r = action_execution_id sha256_hex upper r.event_id r.rule_id r.action_id

  call_handler_calls :
      (executions : Repository) (key : Str) (now : ℕ) (outcome : HandlerOutcome)
      → (call_handler sha256_hex upper config configured executions key now outcome).calls ≡ 1
  unfolding call_handler fail
  call_handler_calls executions key now returned = refl
  call_handler_calls executions key now timed_out = refl
  call_handler_calls executions key now (handler_error code retryable consume) = refl
  call_handler_calls executions key now other_error = refl

  after_claim-IsCounted :
      (r : Request) (outcome : HandlerOutcome) (x : Result (Option ActionExecution))
      (executions : Repository) (key : Str) (n : ℕ)
      → Consumes outcome
      → n + (if is_handed_out x then 1 else 0) ≤ attempts executions key
      → attempts executions key ≤ config.action_max_attempts
      → IsKeyed executions key
      → ((e : ActionExecution) → x ≡ ok (some e) → e.id ≡ key)
      → IsCounted
          (after_claim sha256_hex upper config configured r outcome (x, executions)).executions
          key
          config.action_max_attempts
          (n + (after_claim sha256_hex upper config configured r outcome (x, executions)).calls)
  unfolding after_claim fail
  after_claim-IsCounted r outcome (err x) executions key n c low high k named = record {
    counted = low;
    within = high;
    keyed = k;
  }
  after_claim-IsCounted r outcome (ok none) executions key n c low high k named = record {
    counted = low;
    within = high;
    keyed = k;
  }
  after_claim-IsCounted r outcome (ok (some e)) executions key n c low high k named =
      let same : e.id ≡ key = named e refl in
      rw same (elim (Bool-cases (configured r.action_type)) [
        | inl known ↦
            rw (known, call_handler_calls executions key r.finished outcome)
              (call_handler-IsCounted sha256_hex upper config configured executions key r.finished
                outcome (n + 1) c (record { counted = low; within = high; keyed = k }))
        | inr unknown ↦ rw unknown (
            fail-IsCounted sha256_hex upper config configured executions key r.finished _ false
              (n + 0) 0 (record { counted = omega (arith, low); within = high; keyed = k }))
      ])

  execute-IsCounted :
      (r : Request) (outcome : HandlerOutcome) (executions : Repository) (n : ℕ)
      → 0 < config.action_max_attempts
      → Consumes outcome
      → IsCounted executions (key_of r) config.action_max_attempts n
      → IsCounted
          (execute sha256_hex upper config configured r outcome executions).executions
          (key_of r)
          config.action_max_attempts
          (n + (execute sha256_hex upper config configured r outcome executions).calls)
  unfolding execute candidate
  execute-IsCounted r outcome executions n p c h =
      let e = candidate sha256_hex upper config configured r in
      let stale_before = r.now - config.action_claim_stale_seconds in
      let maximum = config.action_max_attempts in
      elim (Result-cases (post_init e)) [
        | inl (f, fine) ↦
            let kept = claim-attempts executions e stale_before maximum refl p h.within in
            let keyed = claim-IsKeyed executions e stale_before maximum h.keyed in
            rw (fine ∙ ap ok (sym (post_init_same e f fine)), execute)
              (after_claim-IsCounted r outcome (claim executions e stale_before maximum).0
                (claim executions e stale_before maximum).1 (key_of r) n c
                (omega (arith, kept.0, h.counted)) kept.1 keyed.0 keyed.1)
        | inr (x, bad) ↦
            rw (bad, execute)
              (record { counted = omega (arith, h.counted); within = h.within; keyed = h.keyed })
      ]

  -- the calls of the handler in a sequence of executions of one action
  pub retry : List (Request × HandlerOutcome) → Repository → ℕ × Repository
  retry [] executions = (0, executions)
  retry ((r, outcome) ∷ tries) executions =
      let done = execute sha256_hex upper config configured r outcome executions in
      let rest = retry tries done.executions in (done.calls + rest.0, rest.1)

  -- executions of the action with this key, each using up its attempt
  abbrev pub IsFor : Str → Request × HandlerOutcome → Type 0
  IsFor key (r, outcome) = (key_of r ≡ key) × Consumes outcome

  retry-IsCounted :
      (tries : List (Request × HandlerOutcome)) (executions : Repository) (key : Str) (n : ℕ)
      → 0 < config.action_max_attempts
      → All (IsFor key) tries
      → IsCounted executions key config.action_max_attempts n
      → IsCounted
          (retry tries executions).1
          key
          config.action_max_attempts
          (n + (retry tries executions).0)
  unfolding retry
  retry-IsCounted [] executions key n p a h = record {
    counted = omega (arith, h.counted);
    within = h.within;
    keyed = h.keyed;
  }
  retry-IsCounted ((r, outcome) ∷ tries) executions key n p a h =
      let done = execute sha256_hex upper config configured r outcome executions in
      let step = execute-IsCounted r outcome executions n p a.0.1 (rw a.0.0 h) in
      rw (sym (add_assoc n done.calls (retry tries done.executions).0))
        (retry-IsCounted tries done.executions key (n + done.calls) p a.1 (rw a.0.0 at step))

  -- However often one action of one event is retried, the handler is called at most
  -- `action_max_attempts` times, if no outcome gives its attempt back.
  pub retry-le_max_attempts :
      (tries : List (Request × HandlerOutcome)) (executions : Repository) (key : Str)
      → 0 < config.action_max_attempts
      → get executions key ≡ none
      → All (IsFor key) tries
      → (retry tries executions).0 ≤ config.action_max_attempts
  retry-le_max_attempts tries executions key p new a =
      let h = retry-IsCounted tries executions key 0 p a (record {
        counted = omega arith;
        within = ground (arith, new);
        keyed = λ e found. ground (arith, new);
      }) in
      omega (arith, h.counted, h.within)

  mark_succeeded_stored :
      (executions : Repository) (key : Str) (now : ℕ)
      → return_after (mark_succeeded executions key now).0 ≡ ok true
      → (f : ActionExecution) × (get (mark_succeeded executions key now).1 key ≡ some f)
        × (f.status ≡ succeeded)
  unfolding mark_succeeded store post_init
  mark_succeeded_stored executions key now h = elim (Option-cases (get executions key)) [
    | inl gone ↦ absurd (ground arith)
    | inr (current, found) ↦
        let g : ActionExecution = record current {
          status = succeeded;
          completed_at = some now;
          updated_at = now;
          error_code = none;
        } in
        (g, ground (arith, get-put_self executions key g), refl)
  ]

  call_handler_stored :
      (executions : Repository) (key : Str) (now : ℕ) (outcome : HandlerOutcome)
      → (call_handler sha256_hex upper config configured executions key now outcome).result
        ≡ ok true
      → (f : ActionExecution) × (get
            (call_handler sha256_hex upper config configured executions key now outcome).executions
            key
          ≡ some f)
        × (f.status ≡ succeeded)
  unfolding call_handler fail
  call_handler_stored executions key now returned h = mark_succeeded_stored executions key now h
  call_handler_stored executions key now timed_out h = absurd (ground arith)
  call_handler_stored executions key now (handler_error code retryable consume) h =
      absurd (ground arith)
  call_handler_stored executions key now other_error h = absurd (ground arith)

  not_claimed_false :
      (o : Option ActionExecution) → not_claimed sha256_hex upper config configured o ≢ ok true
  unfolding not_claimed
  not_claimed_false o h = ground arith

  after_claim_stored :
      (r : Request) (outcome : HandlerOutcome) (x : Result (Option ActionExecution))
      (executions : Repository)
      → ((e : ActionExecution) → x ≡ ok (some e) → e.id ≡ key_of r)
      → (after_claim sha256_hex upper config configured r outcome (x, executions)).result ≡ ok true
      → (f : ActionExecution) × (get
            (after_claim sha256_hex upper config configured r outcome (x, executions)).executions
            (key_of r)
          ≡ some f)
        × (f.status ≡ succeeded)
  unfolding after_claim fail
  after_claim_stored r outcome (err x) executions named h = cc
  after_claim_stored r outcome (ok none) executions named h =
      absurd (not_claimed_false (get executions (key_of r)) h)
  after_claim_stored r outcome (ok (some e)) executions named h =
      let same : e.id ≡ key_of r = named e refl in
      elim (Bool-cases (configured r.action_type)) [
        | inl known ↦
            rw (known, same)
              (call_handler_stored executions (key_of r) r.finished outcome (rw (known, same) at h))
        | inr unknown ↦ absurd (ground arith)
      ]

  execute_stored :
      (r : Request) (outcome : HandlerOutcome) (executions : Repository)
      → IsKeyed executions (key_of r)
      → (execute sha256_hex upper config configured r outcome executions).result ≡ ok true
      → (f : ActionExecution) × (get
            (execute sha256_hex upper config configured r outcome executions).executions
            (key_of r)
          ≡ some f)
        × (f.status ≡ succeeded)
        × (post_init (candidate sha256_hex upper config configured r)
            ≡ ok (candidate sha256_hex upper config configured r))
  unfolding execute candidate
  execute_stored r outcome executions k h =
      let e = candidate sha256_hex upper config configured r in
      let stale_before = r.now - config.action_claim_stale_seconds in
      let taken = claim executions e stale_before config.action_max_attempts in
      let keyed = claim-IsKeyed executions e stale_before config.action_max_attempts k in
      elim (Result-cases (post_init e)) [
        | inl (f, fine) ↦
            let fine' : post_init e ≡ ok e = fine ∙ ap ok (sym (post_init_same e f fine)) in
            let stored =
              after_claim_stored r outcome taken.0 taken.1 keyed.1 (rw (fine', execute) at h) in
            (stored.0, rw (fine', execute) stored.1, stored.2, fine')
        | inr (x, bad) ↦ absurd (ground arith)
      ]

  execute-succeeded :
      (r : Request) (outcome : HandlerOutcome) (executions : Repository) (f : ActionExecution)
      → get executions (key_of r) ≡ some f
      → f.status ≡ succeeded
      → post_init (candidate sha256_hex upper config configured r)
        ≡ ok (candidate sha256_hex upper config configured r)
      → execute sha256_hex upper config configured r outcome executions
        ≡ record { result = ok false; executions = executions; calls = 0 }
  unfolding execute candidate claim claim_existing after_claim not_claimed
  execute-succeeded r outcome executions f found done fine = ground arith

  candidate_fine :
      (r r' : Request)
      → r'.event_id ≡ r.event_id
      → r'.rule_id ≡ r.rule_id
      → r'.action_id ≡ r.action_id
      → post_init (candidate sha256_hex upper config configured r)
        ≡ ok (candidate sha256_hex upper config configured r)
      → post_init (candidate sha256_hex upper config configured r')
        ≡ ok (candidate sha256_hex upper config configured r')
  unfolding candidate post_init
  candidate_fine r r' e1 e2 e3 fine = ground arith

  -- A request for the action whose execution succeeded is answered with False, at any time and
  -- whatever the handler would do: it is not called, and nothing changes.
  pub execute-after_success :
      (r r' : Request) (outcome outcome' : HandlerOutcome) (executions : Repository)
      → r'.event_id ≡ r.event_id
      → r'.rule_id ≡ r.rule_id
      → r'.action_id ≡ r.action_id
      → IsKeyed executions (key_of r)
      → (execute sha256_hex upper config configured r outcome executions).result ≡ ok true
      → execute sha256_hex upper config configured r' outcome'
          (execute sha256_hex upper config configured r outcome executions).executions
        ≡ record {
          result = ok false;
          executions = (execute sha256_hex upper config configured r outcome executions).executions;
          calls = 0;
        }
  execute-after_success r r' outcome outcome' executions e1 e2 e3 k h =
      let stored = execute_stored r outcome executions k h in
      let fine = candidate_fine r r' e1 e2 e3 stored.3 in
      let same : key_of r ≡ key_of r' = cc in
      execute-succeeded r' outcome' _ stored.0 (rw same at stored.1) stored.2 fine
