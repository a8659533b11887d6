-- ===== src/Policy/Circuit.antt =====
-- _TargetCircuitBreaker of application/actions.py, and how HttpActionHandler.execute uses it once a
-- target is found and the client is there: begin_request up to the first await of the client, and
-- request_ended what follows, so that the requests of a host overlap. The request of the HTTP client
-- is outside: how it ends is an input. str of an int is a parameter.
pub mod Machine
pub mod Probe
use vehicle_intelligence.Prelude.{
  ℕ, ◌+◌, ◌-◌, Str, codes, eqb, leb, ltb, if◌then◌else◌, Option, none, some, ◌++◌, Bool, true,
  false, ◌&&◌, ◌||◌, Dict, get, put,
}
use vehicle_intelligence.Policy.Executions.Engine.{
  HandlerOutcome, returned, timed_out, handler_error, other_error,
}

-- the limits of a target
pub record Target : Type 0 where
  pub host : Str
  pub circuit_failure_threshold : ℕ
  pub circuit_recovery_seconds : ℕ

pub record CircuitState : Type 0 where
  pub failures : ℕ
  pub opened_at : Option ℕ
  pub probe_in_flight : Bool

abbrev pub new_state : CircuitState
new_state = record { failures = 0; opened_at = none; probe_in_flight = false }

-- _states
abbrev pub Circuits : Type 0
Circuits = Dict CircuitState

-- setdefault(target.host, _CircuitState())
abbrev pub or_new : Option CircuitState → CircuitState
or_new none = new_state
or_new (some state) = state

-- whether the request may go out, and the state
abbrev pub admit : Option ℕ → Target → ℕ → CircuitState → Bool × CircuitState
admit none target now state = (true, state)
admit (some opened_at) target now state =
    if ltb (now - opened_at) target.circuit_recovery_seconds || state.probe_in_flight
    then (false, state)
    else (true, record state { probe_in_flight = true })

unfoldable pub before_request : Target → ℕ → Circuits → Bool × Circuits
before_request target now circuits =
    let state = or_new (get circuits target.host) in
    let (admitted, next) = admit state.opened_at target now state in
    (admitted, put circuits target.host next)

unfoldable pub succeeded : Target → Circuits → Circuits
succeeded target circuits = put circuits target.host new_state

unfoldable pub one_more_failure : Target → ℕ → CircuitState → CircuitState
one_more_failure target now state =
    let failures = state.failures + 1 in
    record {
      failures = failures;
      opened_at =
          if leb target.circuit_failure_threshold failures then some now else state.opened_at;
      probe_in_flight = false;
    }

unfoldable pub failed : Target → ℕ → Circuits → Circuits
failed target now circuits =
    put circuits target.host (one_more_failure target now (or_new (get circuits target.host)))

-- how what follows an admitted call of before_request ends: with a naive clock of `_authenticate`,
-- with an httpx.RequestError, by the cancellation after the engine's timeout, with another exception,
-- or with a response
pub data RequestOutcome : Type 0 where
  clock_invalid transport_error cancelled other_exception : RequestOutcome
  response : ℕ → RequestOutcome

-- The call of before_request in `execute`: none for a request that goes on to be sent.
unfoldable pub begin_request : Target → ℕ → Circuits → Option HandlerOutcome × Circuits
begin_request target now circuits =
    let (admitted, asked) = before_request target now circuits in
    (
      if admitted then none else some (handler_error (codes "EXTERNAL_CIRCUIT_OPEN") true false),
      asked,
    )

module _ (decimal : ℕ → Str) where
  abbrev pub is_retryable : ℕ → Bool
  is_retryable status = leb 500 status || eqb status 408 || eqb status 429

  unfoldable pub request_ended : Target → ℕ → RequestOutcome → Circuits → HandlerOutcome × Circuits
  request_ended target finished clock_invalid circuits =
      (handler_error (codes "EXTERNAL_CLOCK_INVALID") false true, circuits)
  request_ended target finished cancelled circuits = (timed_out, circuits)
  request_ended target finished other_exception circuits = (other_error, circuits)
  request_ended target finished transport_error circuits =
      (handler_error (codes "HTTP_TRANSPORT_ERROR") true true, failed target finished circuits)
  request_ended target finished (response status) circuits =
      if leb 200 status && ltb status 300 then (returned, succeeded target circuits) else (
        handler_error (codes "HTTP_STATUS_" ++ decimal status) (is_retryable status) true,
        if is_retryable status then failed target finished circuits else succeeded target circuits,
      )
