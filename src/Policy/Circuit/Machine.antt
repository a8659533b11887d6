-- ===== src/Policy/Circuit/Machine.antt =====
-- The states of a circuit, under any order of the calls of concurrent requests.
use vehicle_intelligence.Prelude.{
  length, if◌then◌else◌, ℕ, ◌+◌, ◌-◌, ◌≡◌, refl, sym, ◌∙◌, arith, leb, ltb, Option, none, some,
  is_some, List, [], ◌∷◌, true, false, ◌||◌, Bool-cases, inl, inr, get, put, get-put_self,
}
use mathlib.Core.Path.{subst}
use vehicle_intelligence.Policy.Circuit.{
  Target, CircuitState, new_state, Circuits, or_new, admit, before_request, succeeded,
  one_more_failure, failed,
}

-- when a circuit was opened that has failed at these times, the last one first
abbrev pub opening : Target → List ℕ → Option ℕ
opening target [] = none
opening target (time ∷ times) =
    if leb target.circuit_failure_threshold (length times + 1) then some time else none

-- The state after failures at these times, the last one first: they are counted, the circuit is open
-- since the last one if they reach the threshold, and a probe is only sent through an open circuit.
pub record IsCircuit (target : Target) (times : List ℕ) (s : CircuitState) : Type 0 where
  pub counted : s.failures ≡ length times
  pub opened : s.opened_at ≡ opening target times
  pub probed : s.probe_in_flight ≡ true → is_some s.opened_at ≡ true

-- a call of the breaker, by any of the requests for the target
pub data Call : Type 0 where
  ask : ℕ → Call
  succeed : Call
  fail : ℕ → Call

-- the times of the failures since the last success, the last one first; `times` are those before
abbrev pub failures_since : List ℕ → List Call → List ℕ
failures_since times [] = times
failures_since times (ask now ∷ calls) = failures_since times calls
failures_since times (succeed ∷ calls) = failures_since [] calls
failures_since times (fail now ∷ calls) = failures_since (now ∷ times) calls

module _ (target : Target) where
  unfoldable pub call : Call → Circuits → Circuits
  call (ask now) circuits = (before_request target now circuits).1
  call succeed circuits = succeeded target circuits
  call (fail now) circuits = failed target now circuits

  unfoldable pub run : List Call → Circuits → Circuits
  run [] circuits = circuits
  run (c ∷ calls) circuits = run calls (call c circuits)

  abbrev pub state_of : Circuits → CircuitState
  state_of circuits = or_new (get circuits target.host)

  pub state_of-put :
      (circuits : Circuits) (s : CircuitState) → state_of (put circuits target.host s) ≡ s
  state_of-put circuits s = rw (get-put_self circuits target.host s, state_of) refl

  admit-IsCircuit :
      (o : Option ℕ) (now : ℕ) (times : List ℕ) (s : CircuitState)
      → s.opened_at ≡ o
      → IsCircuit target times s
      → IsCircuit target times (admit o target now s).1
  admit-IsCircuit none now times s e h = h
  admit-IsCircuit (some t) now times s e h =
      elim (Bool-cases (ltb (now - t) target.circuit_recovery_seconds || s.probe_in_flight)) [
        | inl refused ↦ rw (refused, admit) h
        | inr probe ↦
            rw (probe, admit)
              (record { counted = h.counted; opened = h.opened; probed = λ _. rw e refl })
      ]

  below_threshold :
      (times : List ℕ)
      → leb target.circuit_failure_threshold (length times + 1) ≡ false
      → opening target times ≡ none
  below_threshold [] h = refl
  below_threshold (time ∷ times) h =
      let fewer : leb target.circuit_failure_threshold (length times + 1) ≡ false =
        ground (arith, h) in
      rw fewer refl

  one_more_failure-IsCircuit :
      (now : ℕ) (times : List ℕ) (s : CircuitState)
      → IsCircuit target times s
      → IsCircuit target (now ∷ times) (one_more_failure target now s)
  unfolding one_more_failure
  one_more_failure-IsCircuit now times s h =
      elim (Bool-cases (leb target.circuit_failure_threshold (length times + 1))) [
        | inl opens ↦ record {
          counted = omega (arith, h.counted);
          opened = rw (h.counted, opens) refl;
          probed = λ p. ground (arith, p);
        }
        | inr closed ↦ record {
          counted = omega (arith, h.counted);
          opened = rw (h.counted, closed) (h.opened ∙ below_threshold times closed);
          probed = λ p. ground (arith, p);
        }
      ]

  run-kept :
      (calls : List Call) (times : List ℕ) (circuits : Circuits)
      → IsCircuit target times (state_of circuits)
      → IsCircuit target (failures_since times calls) (state_of (run calls circuits))
  unfolding run call before_request succeeded failed
  run-kept [] times circuits h = h
  run-kept (ask now ∷ calls) times circuits h = run-kept calls times _ (
      subst (IsCircuit target times) (sym (state_of-put circuits _))
        (admit-IsCircuit (state_of circuits).opened_at now times (state_of circuits) refl h))
  run-kept (succeed ∷ calls) times circuits h = run-kept calls [] _ (
      subst (IsCircuit target []) (sym (state_of-put circuits new_state))
        (record { counted = refl; opened = refl; probed = λ p. ground (arith, p) }))
  run-kept (fail now ∷ calls) times circuits h = run-kept calls (now ∷ times) _ (
      subst (IsCircuit target (now ∷ times)) (sym (state_of-put circuits _))
        (one_more_failure-IsCircuit now times (state_of circuits) h))

  -- Under any order of the calls of any requests to a target, its circuit counts the failures since
  -- the last success, it is open exactly when they have reached the threshold, since the last of
  -- them, and a probe is only in flight through an open circuit.
  pub run-IsCircuit :
      (calls : List Call) → IsCircuit target (failures_since [] calls) (state_of (run calls []))
  run-IsCircuit calls =
      run-kept calls [] []
        (record { counted = refl; opened = refl; probed = λ p. ground (arith, p) })
