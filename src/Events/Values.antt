-- ===== src/Events/Values.antt =====
-- Python values and exceptions, as far as src/agent_cdp tells them apart, and the outcome of a
-- call that may raise.
use agent_cdp.Prelude.{ℕ, ◌≡◌, refl, ◌⊎◌, inl, inr, Bool, true, false, List, Dict}

-- What a handler may return beside `None`. The objects inside a container, and every object of
-- another type, stand by a number.
pub data Value : Type 0 where
  mapping : Dict ℕ → Value
  sequence : List ℕ → Value
  opaque : ℕ → Value

-- `EventTimeoutError.phase`
pub data Phase : Type 0 where
  wait execution flush : Phase

-- `other n` is any exception that no code of the package names. The failures of an
-- `EventExecutionError` stand by their connections.
pub data Exc : Type 0 where
  cancelled_error timeout_error value_error type_error runtime_error key_error recursion_error : Exc
  event_timeout_error : Phase → Exc
  handler_timeout_error self_wait_error async_handler_error : Exc
  resume_timeout_error assertion_error : Exc
  result_contract_error : ℕ → Exc
  queue_full_error : (event_id connection_id scope_id : ℕ) → Exc
  receiver_contract_error : (missing : List ℕ) (required actual : ℕ) → Exc
  event_execution_error : (failures missing : List ℕ) → Exc
  handler_error : (original : Exc) (handler_name connection_id : ℕ) → Exc
  exception_group : ℕ → Exc
  other : ℕ → Exc

-- `isinstance(e, asyncio.CancelledError)`, the one class here that is no `Exception`.
abbrev pub is_cancelled : Exc → Bool
is_cancelled Exc.cancelled_error = true
is_cancelled _ = false

-- `isinstance(e, TimeoutError)`
abbrev pub is_timeout : Exc → Bool
is_timeout Exc.timeout_error = true
is_timeout (Exc.event_timeout_error phase) = true
is_timeout Exc.handler_timeout_error = true
is_timeout Exc.resume_timeout_error = true
is_timeout _ = false

pub data Outcome {ℓ} (A : Type ℓ) : Type ℓ where
  return : A → Outcome A
  raise : Exc → Outcome A

infixl 5 ◌>>=◌
abbrev pub ◌>>=◌ {ℓ κ} : {A : Type ℓ} {B : Type κ} → Outcome A → (A → Outcome B) → Outcome B
return a >>= f = f a
raise e >>= f = raise e

pub Outcome-cases {ℓ} :
    {A : Type ℓ} (m : Outcome A) → ((a : A) × (m ≡ return a)) ⊎ ((e : Exc) × (m ≡ raise e))
Outcome-cases (return a) = inl (a, refl)
Outcome-cases (raise e) = inr (e, refl)
