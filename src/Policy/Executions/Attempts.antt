-- ===== src/Policy/Executions/Attempts.antt =====
-- The bound on the calls of a handler, and the finality of a success.
use vehicle_intelligence.Prelude.{
  ℕ, ◌+◌, ◌≤◌, ◌<◌, ◌≡◌, Str, get, get-put_self, worth, Option, none, some, Bool, true, false, not,
  Result, ok, arith, Option-cases, inl, inr, if◌then◌else◌,
}
use vehicle_intelligence.Policy.Executions.{
  ActionExecution, RuleActionType, running, succeeded, failed, post_init, Repository, store, claim,
  claim_existing, mark_succeeded, mark_failed, attempts_after,
}
use vehicle_intelligence.Policy.Executions.Engine.{
  RuleEngineConfig, HandlerOutcome, returned, timed_out, handler_error, other_error, safe_code,
  fail, call_handler,
}

-- attempts on record under a key
abbrev pub attempts : Repository → Str → ℕ
attempts executions key = worth (λ e. e.attempt_count) (get executions key)

abbrev pub is_handed_out : Result (Option ActionExecution) → Bool
is_handed_out (ok (some _)) = true
is_handed_out _ = false

store-attempts :
    (executions : Repository) (key : Str) (e : ActionExecution) (bound : ℕ)
    → attempts executions key ≤ e.attempt_count
    → e.attempt_count ≤ bound
    → attempts executions key ≤ bound
    → (attempts executions key ≤ attempts (store executions key (post_init e)).1 key)
      × (attempts (store executions key (post_init e)).1 key ≤ bound)
unfolding store post_init
store-attempts executions key e bound low high old = ground (arith, get-put_self executions key e)

mark_failed-attempts :
    (executions : Repository) (key code : Str) (now maximum : ℕ) (terminal : Bool)
    → attempts executions key ≤ maximum
    → (attempts executions key
        ≤ attempts (mark_failed executions key code now terminal maximum true).1 key)
      × (attempts (mark_failed executions key code now terminal maximum true).1 key ≤ maximum)
unfolding mark_failed attempts_after
mark_failed-attempts executions key code now maximum terminal h =
    elim (Option-cases (get executions key)) [
      | inl gone ↦ ground arith
      | inr (current, found) ↦ ground (
        arith,
        store-attempts executions key
            (record current {
              status = failed;
              attempt_count = attempts_after current terminal maximum true;
              completed_at = some now;
              updated_at = now;
              error_code = some code;
            })
            maximum,
      )
    ]

mark_succeeded-attempts :
    (executions : Repository) (key : Str) (now maximum : ℕ)
    → attempts executions key ≤ maximum
    → (attempts executions key ≤ attempts (mark_succeeded executions key now).1 key)
      × (attempts (mark_succeeded executions key now).1 key ≤ maximum)
unfolding mark_succeeded
mark_succeeded-attempts executions key now maximum h = elim (Option-cases (get executions key)) [
  | inl gone ↦ ground arith
  | inr (current, found) ↦ ground (
    arith,
    store-attempts executions key
        (record current {
          status = succeeded;
          completed_at = some now;
          updated_at = now;
          error_code = none;
        })
        maximum,
  )
]

-- A handler's outcome that uses up the attempt: any but an error with `consume_attempt=False`.
abbrev pub Consumes : HandlerOutcome → Type 0
Consumes (handler_error code retryable consume_attempt) = consume_attempt ≡ true
Consumes _ = Unit

-- a claim that hands out an execution has counted an attempt
pub claim-attempts :
    (executions : Repository) (e : ActionExecution) (stale_before maximum : ℕ)
    → e.attempt_count ≡ 1
    → 0 < maximum
    → attempts executions e.id ≤ maximum
    → (attempts executions e.id
          + (if is_handed_out (claim executions e stale_before maximum).0 then 1 else 0)
        ≤ attempts (claim executions e stale_before maximum).1 e.id)
      × (attempts (claim executions e stale_before maximum).1 e.id ≤ maximum)
unfolding claim claim_existing store post_init
claim-attempts executions e stale_before maximum one p h =
    elim (Option-cases (get executions e.id)) [
      | inl new ↦ ground (arith, get-put_self executions e.id e)
      | inr (current, found) ↦ ground (
        arith,
        get-put_self executions e.id (record current {
          status = running;
          attempt_count = current.attempt_count + 1;
          updated_at = e.updated_at;
          completed_at = none;
          error_code = none;
        }),
      )
    ]

-- the execution under the key has it as its id
abbrev pub IsKeyed : Repository → Str → Type 0
IsKeyed executions key = (e : ActionExecution) → get executions key ≡ some e → e.id ≡ key

pub claim-IsKeyed :
    (executions : Repository) (e : ActionExecution) (stale_before maximum : ℕ)
    → IsKeyed executions e.id
    → IsKeyed (claim executions e stale_before maximum).1 e.id
      × ((e' : ActionExecution)
          → (claim executions e stale_before maximum).0 ≡ ok (some e')
          → e'.id ≡ e.id)
unfolding claim claim_existing store post_init
claim-IsKeyed executions e stale_before maximum k = elim (Option-cases (get executions e.id)) [
  | inl new ↦ (λ f found. ground (arith, get-put_self executions e.id e), λ f handed. ground arith)
  | inr (current, there) ↦
      let keyed = k current there in
      let next : ActionExecution = record current {
        status = running;
        attempt_count = current.attempt_count + 1;
        updated_at = e.updated_at;
        completed_at = none;
        error_code = none;
      } in
      (
        λ f found. ground (arith, keyed, get-put_self executions e.id next, there),
        λ f handed. ground (arith, keyed, there),
      )
]

store-IsKeyed :
    (executions : Repository) (key : Str) (e : ActionExecution)
    → e.id ≡ key
    → IsKeyed executions key
    → IsKeyed (store executions key (post_init e)).1 key
unfolding store post_init
store-IsKeyed executions key e same k f found = ground (arith, get-put_self executions key e, k f)

mark_failed-IsKeyed :
    (executions : Repository) (key code : Str) (now maximum : ℕ) (terminal consume : Bool)
    → IsKeyed executions key
    → IsKeyed (mark_failed executions key code now terminal maximum consume).1 key
unfolding mark_failed
mark_failed-IsKeyed executions key code now maximum terminal consume k =
    elim (Option-cases (get executions key)) [
      | inl gone ↦ rw (gone, mark_failed) k
      | inr (current, there) ↦
          rw (there, mark_failed) (store-IsKeyed executions key _ (k current there) k)
    ]

mark_succeeded-IsKeyed :
    (executions : Repository) (key : Str) (now : ℕ)
    → IsKeyed executions key
    → IsKeyed (mark_succeeded executions key now).1 key
unfolding mark_succeeded
mark_succeeded-IsKeyed executions key now k = elim (Option-cases (get executions key)) [
  | inl gone ↦ rw (gone, mark_succeeded) k
  | inr (current, there) ↦
      rw (there, mark_succeeded) (store-IsKeyed executions key _ (k current there) k)
]

-- `calls` calls so far, no more than the attempts on record, which are within the limit
pub record IsCounted (executions : Repository) (key : Str) (maximum calls : ℕ) : Type 0 where
  pub counted : calls ≤ attempts executions key
  pub within : attempts executions key ≤ maximum
  pub keyed : IsKeyed executions key

module _ (sha256_hex upper : Str → Str) (config : RuleEngineConfig)
    (configured : RuleActionType → Bool) where
  abbrev maximum : ℕ
  maximum = config.action_max_attempts

  pub fail-IsCounted :
      (executions : Repository) (key : Str) (now : ℕ) (code : Str) (retryable : Bool) (n calls : ℕ)
      → IsCounted executions key maximum n
      → IsCounted
          (fail sha256_hex upper config configured executions key now code retryable true
            calls).executions
          key
          maximum
          n
  unfolding fail
  fail-IsCounted executions key now code retryable n calls h =
      let safe = safe_code sha256_hex upper code in
      let kept = mark_failed-attempts executions key safe now maximum (not retryable) h.within in
      record {
        counted = omega (arith, h.counted, kept.0);
        within = kept.1;
        keyed = mark_failed-IsKeyed executions key safe now maximum (not retryable) true h.keyed;
      }

  pub call_handler-IsCounted :
      (executions : Repository) (key : Str) (now : ℕ) (outcome : HandlerOutcome) (n : ℕ)
      → Consumes outcome
      → IsCounted executions key maximum n
      → IsCounted
          (call_handler sha256_hex upper config configured executions key now outcome).executions
          key
          maximum
          n
  unfolding call_handler
  call_handler-IsCounted executions key now returned n c h =
      let kept = mark_succeeded-attempts executions key now maximum h.within in
      record {
        counted = omega (arith, h.counted, kept.0);
        within = kept.1;
        keyed = mark_succeeded-IsKeyed executions key now h.keyed;
      }
  call_handler-IsCounted executions key now (handler_error code retryable consume) n c h =
      rw c (fail-IsCounted executions key now code retryable n 1 h)
  call_handler-IsCounted executions key now timed_out n c h =
      fail-IsCounted executions key now _ true n 1 h
  call_handler-IsCounted executions key now other_error n c h =
      fail-IsCounted executions key now _ true n 1 h
