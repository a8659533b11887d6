-- ===== src/Policy/Circuit/Probe.antt =====
-- The probe of an open circuit, among the requests of its target that overlap.
use vehicle_intelligence.Prelude.{
  ℕ, ◌+◌, ◌-◌, ◌≤◌, ◌≡◌, refl, ap, ◌∙◌, arith, Str, codes, ltb, Option, none, some, List, [], ◌∷◌,
  Bool, true, false, ◌||◌, All, put,
}
use vehicle_intelligence.Policy.Executions.Engine.{HandlerOutcome, handler_error}
use vehicle_intelligence.Policy.Circuit.{
  Target, CircuitState, Circuits, admit, before_request, RequestOutcome, clock_invalid,
  transport_error, cancelled, other_exception, response, begin_request, request_ended,
}
use vehicle_intelligence.Policy.Circuit.Machine.{state_of, state_of-put}

-- A probe is in flight through the open circuit of the target.
pub record IsProbed (target : Target) (circuits : Circuits) : Type 0 where
  pub opened_at : ℕ
  pub opened : (state_of target circuits).opened_at ≡ some opened_at
  pub probe : (state_of target circuits).probe_in_flight ≡ true

-- A step of one of the requests of the target, which overlap: it begins, or what was sent ends.
pub data Step : Type 0 where
  begins : ℕ → Step
  ends : ℕ → RequestOutcome → Step

-- an end that neither closes the circuit nor counts a failure
abbrev pub IsAborted : RequestOutcome → Type 0
IsAborted clock_invalid = Unit
IsAborted cancelled = Unit
IsAborted other_exception = Unit
IsAborted _ = ⊥

-- a step of a request that begins, or that is aborted
abbrev pub IsIdle : Step → Type 0
IsIdle (begins now) = Unit
IsIdle (ends finished outcome) = IsAborted outcome

module _ (decimal : ℕ → Str) (target : Target) where
  abbrev pub refusal : HandlerOutcome
  refusal = handler_error (codes "EXTERNAL_CIRCUIT_OPEN") true false

  unfoldable pub step : Step → Circuits → Circuits
  step (begins now) circuits = (begin_request target now circuits).1
  step (ends finished outcome) circuits = (request_ended decimal target finished outcome circuits).1

  -- what the requests that begin are answered at once, in their order
  unfoldable pub answers : List Step → Circuits → List (Option HandlerOutcome)
  answers [] circuits = []
  answers (begins now ∷ steps) circuits =
      (begin_request target now circuits).0 ∷ answers steps (step (begins now) circuits)
  answers (ends finished outcome ∷ steps) circuits =
      answers steps (step (ends finished outcome) circuits)

  aborted_unchanged :
      (finished : ℕ) (outcome : RequestOutcome) (circuits : Circuits)
      → IsAborted outcome
      → step (ends finished outcome) circuits ≡ circuits
  unfolding step request_ended
  aborted_unchanged finished clock_invalid circuits h = refl
  aborted_unchanged finished cancelled circuits h = refl
  aborted_unchanged finished other_exception circuits h = refl
  aborted_unchanged finished transport_error circuits h = absurd h
  aborted_unchanged finished (response status) circuits h = absurd h

  refused :
      (now : ℕ) (circuits : Circuits)
      → IsProbed target circuits
      → begin_request target now circuits
        ≡ (some refusal, put circuits target.host (state_of target circuits))
  unfolding begin_request before_request
  refused now circuits h =
      let test : (ltb (now - h.opened_at) target.circuit_recovery_seconds
            || (state_of target circuits).probe_in_flight)
          ≡ true =
        rw h.probe (either _) in
      rw (h.opened, admit, test) refl
    where
      either : (b : Bool) → (b || true) ≡ true
      either true = refl
      either false = refl

  IsProbed-put :
      (now : ℕ) (circuits : Circuits) (answer : Option HandlerOutcome) (s : CircuitState)
      (opened_at : ℕ)
      → begin_request target now circuits ≡ (answer, put circuits target.host s)
      → s.opened_at ≡ some opened_at
      → s.probe_in_flight ≡ true
      → IsProbed target (step (begins now) circuits)
  unfolding step
  IsProbed-put now circuits answer s opened_at begun opened probe =
      let same = ap (λ r. state_of target r.1) begun ∙ state_of-put target circuits s in
      record {
        opened_at = opened_at;
        opened = ap (λ s. s.opened_at) same ∙ opened;
        probe = ap (λ s. s.probe_in_flight) same ∙ probe;
      }

  probe_sent :
      (now : ℕ) (circuits : Circuits) (opened_at : ℕ)
      → (state_of target circuits).opened_at ≡ some opened_at
      → (state_of target circuits).probe_in_flight ≡ false
      → opened_at + target.circuit_recovery_seconds ≤ now
      → begin_request target now circuits ≡ (
        none,
        put circuits target.host (record {
          failures = (state_of target circuits).failures;
          opened_at = some opened_at;
          probe_in_flight = true;
        }),
      )
  unfolding begin_request before_request
  probe_sent now circuits opened_at opened free recovered =
      let early : ltb (now - opened_at) target.circuit_recovery_seconds ≡ false =
        ground (arith, recovered) in
      let test : (ltb (now - opened_at) target.circuit_recovery_seconds
            || (state_of target circuits).probe_in_flight)
          ≡ false =
        rw (early, free) refl in
      rw (opened, admit, test)
        (ap
          (λ o. (
            none,
            put circuits target.host
                (record (state_of target circuits) { opened_at = o; probe_in_flight = true }),
          ))
          opened)

  answers-refused :
      (steps : List Step) (circuits : Circuits)
      → IsProbed target circuits
      → All IsIdle steps
      → All (λ answer. answer ≡ some refusal) (answers steps circuits)
  unfolding answers
  answers-refused [] circuits h idle = tt
  answers-refused (ends finished outcome ∷ steps) circuits h idle =
      rw (aborted_unchanged finished outcome circuits idle.0)
        (answers-refused steps circuits h idle.1)
  answers-refused (begins now ∷ steps) circuits h idle = (
    ap (λ r. r.0) (refused now circuits h),
    answers-refused steps (step (begins now) circuits)
        (IsProbed-put now circuits _ _ h.opened_at (refused now circuits h) h.opened h.probe)
        idle.1,
  )

  -- If the request that probes an open circuit after its recovery time is aborted, that is, it is
  -- cancelled or ends with an exception that is no httpx.RequestError, then every request to the
  -- target that begins later is refused, at whatever time, as long as no other request of the target
  -- that was sent ends with a response or an httpx.RequestError.
  pub interrupted_probe-refused :
      (now finished : ℕ) (outcome : RequestOutcome) (steps : List Step) (circuits : Circuits)
      (opened_at : ℕ)
      → (state_of target circuits).opened_at ≡ some opened_at
      → (state_of target circuits).probe_in_flight ≡ false
      → opened_at + target.circuit_recovery_seconds ≤ now
      → IsAborted outcome
      → All IsIdle steps
      → ((begin_request target now circuits).0 ≡ none)
        × All
            (λ answer. answer ≡ some refusal)
            (answers steps (step (ends finished outcome) (step (begins now) circuits)))
  interrupted_probe-refused now finished outcome steps circuits opened_at opened free recovered cut
        idle =
      let sent = probe_sent now circuits opened_at opened free recovered in
      (
        ap (λ r. r.0) sent,
        rw (aborted_unchanged finished outcome (step (begins now) circuits) cut) (
            answers-refused steps (step (begins now) circuits)
              (IsProbed-put now circuits _ _ opened_at sent refl refl) idle),
      )
