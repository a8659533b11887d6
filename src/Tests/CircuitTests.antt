-- ===== src/Tests/CircuitTests.antt =====
-- The circuit breaker of external actions at concrete inputs.
use vehicle_intelligence.Prelude.{
  ◌==◌, ℕ, ◌≡◌, refl, Str, codes, false, none, some, List, [], ◌∷◌, All, arith,
}
use vehicle_intelligence.Policy.Circuit.{
  Target, Circuits, cancelled, other_exception, response, begin_request, before_request,
  request_ended, succeeded,
}
use vehicle_intelligence.Policy.Circuit.Machine.{
  IsCircuit, ask, succeed, fail, failures_since, run, state_of, run-IsCircuit,
}
use vehicle_intelligence.Policy.Circuit.Probe.{
  Step, begins, ends, step, answers, refusal, interrupted_probe-refused,
}

abbrev target : Target
target = record { host = codes "h"; circuit_failure_threshold = 2; circuit_recovery_seconds = 30 }

abbrev decimal : ℕ → Str
decimal n = n ∷ []

run-IsCircuit_example :
    IsCircuit target
      (failures_since [] (fail 1 ∷ succeed ∷ ask 1 ∷ fail 2 ∷ ask 3 ∷ fail 4 ∷ ask 40 ∷ []))
      (state_of target
        (run target (fail 1 ∷ succeed ∷ ask 1 ∷ fail 2 ∷ ask 3 ∷ fail 4 ∷ ask 40 ∷ []) []))
run-IsCircuit_example =
    run-IsCircuit target (fail 1 ∷ succeed ∷ ask 1 ∷ fail 2 ∷ ask 3 ∷ fail 4 ∷ ask 40 ∷ [])

-- open since 4, with no probe
abbrev open_circuits : Circuits
open_circuits =
    (codes "h", record { failures = 2; opened_at = some 4; probe_in_flight = false }) ∷ []

-- an older request is cancelled between two that begin
abbrev later : List Step
later = begins 1000 ∷ ends 1005 cancelled ∷ begins 9000 ∷ []

-- a probe that succeeds closes the circuit
closes :
    answers decimal target
      (begins 40 ∷ begins 41 ∷ ends 42 (response 200) ∷ begins 43 ∷ [])
      open_circuits
    ≡ none ∷ some (refusal decimal target) ∷ none ∷ []
unfolding ◌==◌ answers step begin_request before_request request_ended succeeded
closes = refl

interrupted_probe-refused_example :
    ((begin_request target 40 open_circuits).0 ≡ none)
    × All
        (λ answer. answer ≡ some (refusal decimal target))
        (answers decimal target later (
          step decimal target
            (ends 50 other_exception)
            (step decimal target (begins 40) open_circuits)))
unfolding ◌==◌
interrupted_probe-refused_example =
    interrupted_probe-refused decimal target 40 50 other_exception later open_circuits 4 refl refl
      (omega arith) tt (tt, (tt, (tt, tt)))
