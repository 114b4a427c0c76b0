-- ===== src/Scope/Emission/Delivered.antt =====
-- What an emission that gets past its checks leaves for each connection that applies.
use mathlib.Core.Path.{subst}
use agent_cdp.Prelude.{
  ℕ, ◌+◌, ◌≡◌, sym, ◌∙◌, false, Option, none, some, List, has_key, any, map, ◌==◌, ==_refl, if_true,
  if_ind, leb, clash,
}
use agent_cdp.Events.Values.{Exc, Outcome, return, receiver_contract_error}
use agent_cdp.Events.Event.{Event, ReceiverFailure, preflight}
use agent_cdp.Connection.{Connection}
use agent_cdp.Scope.Matching.{get_matching_connections}
use agent_cdp.Scope.Emission.{
  World, Handled, put_event, put_scope, record_history, prepare_all, with_parent, cancel_skipped,
  raised_at_end, applicable, dispatch_all, emit_to, emit_fresh, emit, max_direct_depth,
}
use agent_cdp.Scope.Emission.Evolution.{Orderly}
use agent_cdp.Scope.Emission.Prepared.{AllMade, prepare_all-AllMade}
use agent_cdp.Scope.Emission.Looping.{AllDelivered, dispatch_all-Ended}

module _ (handlers : ℕ → ℕ → World → World × Handled) (now later source : ℕ) where
  -- Nothing is refused before the loop.
  past_checks :
      (e : ℕ) (cs : List Connection) (checked : Event) (w done : World) (error : Option Exc)
      → AllDelivered source cs (done.events e)
      → (o : Option ReceiverFailure) → o ≡ none
      → AllDelivered source cs (
          (elim o as (λ _. World × Option Exc) [
            | some f ↦ (
              put_event e checked w,
              some (receiver_contract_error f.missing_receivers f.required_count f.actual_count),
            )
            | none ↦ (done, error)
          ]).0.events
            e)
  past_checks e cs checked w done error h none passes = h
  past_checks e cs checked w done error h (some f) passes = cc

  emit_to-AllDelivered :
      Orderly handlers
      → (e : ℕ) (parent : Option ℕ) (cs : List Connection) (w : World)
      → (preflight (map (λ c. c.receiver) cs) (w.events e)).1 ≡ none
      → AllDelivered source cs ((emit_to handlers now later source e parent cs w).0.events e)
  unfolding emit_to
  emit_to-AllDelivered orderly e parent cs w passes =
      let ev = w.events e in
      let (checked, failure) = preflight (map (λ c. c.receiver) cs) ev in
      let made = prepare_all now source cs (with_parent w parent checked) in
      let noted = put_scope source (record_history e (w.scopes source)) w in
      let ready = put_event e made noted in
      let ran = dispatch_all handlers now later source e ev.emit_policy none cs ready in
      let settled = cancel_skipped later ran.skipped (ran.world.events e) in
      let done = put_event e settled ran.world in
      let (evolved, delivered) =
        dispatch_all-Ended handlers now later source orderly e ev.emit_policy none cs ready (
          subst (AllMade now source cs) (sym (if_true (e == e) made (w.events e) (==_refl e)))
            (prepare_all-AllMade now source cs (with_parent w parent checked))) in
      past_checks e cs checked w done (raised_at_end ran (done.events e))
        (subst (AllDelivered source cs)
          (sym (if_true (e == e) settled (ran.world.events e) (==_refl e))) delivered)
        failure passes

  module _ (mro : ℕ → List ℕ) (e : ℕ) (w : World) where
    -- The state in which `emit` looks for receivers.
    abbrev pub entered : World
    entered =
        let found =
          get_matching_connections mro w.active (w.events e).event_type (w.scopes source).matcher in
        put_scope source (record (w.scopes source) { matcher = found.0 })
          (record w { emit_depth = w.emit_depth + 1; current_event = some e })

    -- The connections that apply to the event.
    abbrev pub receivers_found : Outcome (List Connection)
    receivers_found =
        applicable entered (w.events e)
          (get_matching_connections mro w.active (w.events e).event_type
            (w.scopes source).matcher).1

    -- An emission to an open scope, not too deep, that finds the connections `cs`, none of which has
    -- a record on the event yet, and that passes its preflight check, leaves a delivery for each
    -- of them, whether the emission then raises or not: a direct one is settled, also when it was not
    -- reached because an earlier handler raised or consumed the event, and a queued one has its
    -- record. This needs handlers that lose no record and change none that is settled.
    pub emit-AllDelivered :
        Orderly handlers
        → (cs : List Connection) → (w.scopes source).closed ≡ false
        → leb max_direct_depth w.emit_depth ≡ false
        → receivers_found ≡ return cs
        → any (λ c. has_key c.id (w.events e).event_results) cs ≡ false
        → (preflight (map (λ c. c.receiver) cs) (w.events e)).1 ≡ none
        → AllDelivered source cs ((emit handlers now later source mro e w).0.events e)
    unfolding emit
    emit-AllDelivered orderly cs is_open shallow found fresh passes =
        let Holds = λ (x : World × Option Exc). AllDelivered source cs (x.0.events e) in
        if_ind Holds (w.scopes source).closed _ _ (λ h. absurd (clash (sym is_open ∙ h)))
          (λ _.
            if_ind Holds (leb max_direct_depth w.emit_depth) _ _
              (λ h. absurd (clash (sym shallow ∙ h)))
              (λ _.
                subst
                  (λ o. Holds (emit_fresh handlers now later source e w.current_event o entered))
                  (sym found)
                  (if_ind Holds (any (λ c. has_key c.id (w.events e).event_results) cs) _ _
                    (λ h. absurd (clash (sym fresh ∙ h)))
                    (λ _. emit_to-AllDelivered orderly e w.current_event cs entered passes))))
