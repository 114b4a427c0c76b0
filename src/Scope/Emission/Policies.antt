-- ===== src/Scope/Emission/Policies.antt =====
-- The modes of connections, the history of a scope, and the context of `emit`.
use agent_cdp.Prelude.{
  ℕ, ◌-◌, ◌≤◌, ◌≡◌, refl, Option, none, some, List, [], ◌∷◌, ◌++◌, length, length-append,
  length-drop, ◌==◌, if_ind, leb, arith,
}
use agent_cdp.Events.Values.{Exc}
use agent_cdp.Connection.{ConnectionType, effective_mode}
use agent_cdp.Scope.Emission.{
  EventScope, World, Handled, record_history, resolve_mode, max_direct_depth, emit,
}

-- `emit` resolves the mode of a connection of its scope to the one that the connection's handler
-- was checked for when the connection was made.
pub resolve_mode-effective_mode :
    (source : ℕ) (mode : ConnectionType) (target : Option ℕ)
    → resolve_mode source mode target ≡ effective_mode mode source target
unfolding resolve_mode effective_mode
resolve_mode-effective_mode source ConnectionType.direct target = refl
resolve_mode-effective_mode source ConnectionType.queued target = refl
resolve_mode-effective_mode source ConnectionType.auto none = ground arith
resolve_mode-effective_mode source ConnectionType.auto (some t) = ground arith

-- A history within its bound is within it after one more event.
pub record_history_bounded :
    (e : ℕ) (s : EventScope)
    → length s.event_history ≤ s.max_history_size
    → length (record_history e s).event_history ≤ s.max_history_size
unfolding record_history
record_history_bounded e s h =
    if_ind (λ (t : EventScope). length t.event_history ≤ s.max_history_size)
      (s.max_history_size == 0) s _ (λ _. h)
      (λ _. ground (
        arith,
        h,
        length-append s.event_history (e ∷ []),
        length-drop (length (s.event_history ++ e ∷ []) - s.max_history_size)
            (s.event_history ++ e ∷ []),
      ))

-- The context variables are as before.
pub record Restored (w w' : World) : Type 0 where
  pub emit_depth : w'.emit_depth ≡ w.emit_depth
  pub current_event : w'.current_event ≡ w.current_event

-- Whatever becomes of an emission, and whatever the handlers do, `emit` leaves the emission depth
-- and the current event of its caller as they were.
pub emit-Restored :
    (handlers : ℕ → ℕ → World → World × Handled) (now later source : ℕ) (mro : ℕ → List ℕ) (e : ℕ)
    (w : World)
    → Restored w (emit handlers now later source mro e w).0
unfolding emit
emit-Restored handlers now later source mro e w =
    if_ind (λ (t : World × Option Exc). Restored w t.0) (w.scopes source).closed _ _
      (λ _. record { emit_depth = refl; current_event = refl })
      (λ _.
        if_ind (λ (t : World × Option Exc). Restored w t.0) (leb max_direct_depth w.emit_depth) _ _
          (λ _. record { emit_depth = refl; current_event = refl })
          (λ _. record { emit_depth = refl; current_event = refl }))
