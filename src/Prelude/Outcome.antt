-- ===== src/Prelude/Outcome.antt =====
-- Exceptions as values: a call returns or raises.
use mathlib.Core.Path.{◌≡◌, refl}
use mathlib.Core.Logic.{◌⊎◌, inl, inr}

-- The exceptions that the modelled code raises.
pub data Error : Type 0 where
  value_error : Error
  scheduler_capacity_error : Error
  policy_conflict policy_not_found : Error
  persistence_error : Error
  rule_validation_error type_error key_error : Error
  action_claim_lost action_already_running action_failed : Error
  topology_conflict topology_not_found : Error
  identity_conflict identity_not_found : Error
  subscription_closed : Error
  camera_worker_error : Error

pub data Result {ℓ} (A : Type ℓ) : Type ℓ where
  ok : A → Result A
  err : Error → Result A

infixl 5 ◌>>=◌
abbrev pub ◌>>=◌ {ℓ κ} : {A : Type ℓ} {B : Type κ} → Result A → (A → Result B) → Result B
ok a >>= f = f a
err e >>= f = err e

infixl 5 ◌>>◌
abbrev pub ◌>>◌ {ℓ κ} : {A : Type ℓ} {B : Type κ} → Result A → Result B → Result B
ok a >> r = r
err e >> r = err e

-- what a check returns that raises nothing
pub data Done : Type 0 where
  done : Done

pub is_done : (d : Done) → d ≡ done
is_done done = refl

pub Result-cases {ℓ} :
    {A : Type ℓ} (r : Result A) → ((a : A) × (r ≡ ok a)) ⊎ ((x : Error) × (r ≡ err x))
Result-cases (ok a) = inl (a, refl)
Result-cases (err x) = inr (x, refl)
