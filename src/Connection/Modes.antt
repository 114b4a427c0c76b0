-- ===== src/Connection/Modes.antt =====
-- Which handlers a mode accepts.
use agent_cdp.Prelude.{◌≡◌, ◌↔◌, ◌⊎◌, true, false, ◌≢◌, arith}
use agent_cdp.Events.Values.{return}
use agent_cdp.Connection.{ConnectionType, Annotation, Shape, validate_handler_mode}

-- What the check lets through, mode by mode. Left as AUTO nothing but the kind is checked.
abbrev pub Fits : Shape → ConnectionType → Type 0
Fits shape ConnectionType.direct =
    (shape.callable ≡ true) × (shape.is_async_generator ≡ false) × (shape.is_coroutine ≡ false)
Fits shape ConnectionType.queued =
    (shape.callable ≡ true)
    × (shape.is_async_generator ≡ false)
    × ((shape.is_coroutine ≡ true) ⊎ (shape.annotation ≢ Annotation.plain))
Fits shape ConnectionType.auto = (shape.callable ≡ true) × (shape.is_async_generator ≡ false)

-- A handler is accepted for a mode exactly when it is callable and no async generator, is no
-- coroutine function where the mode is DIRECT, and is a coroutine function or not annotated with
-- a plain return type where the mode is QUEUED.
pub validate_handler_mode_iff :
    (shape : Shape) (mode : ConnectionType)
    → (validate_handler_mode shape mode ≡ return tt) ↔ Fits shape mode
unfolding validate_handler_mode
validate_handler_mode_iff shape ConnectionType.direct = (λ h. ground arith, λ h. ground arith)
validate_handler_mode_iff shape ConnectionType.queued = (λ h. ground arith, λ h. ground arith)
validate_handler_mode_iff shape ConnectionType.auto = (λ h. ground arith, λ h. ground arith)
