-- ===== src/Scope/Cancellation/Settled.antt =====
-- What `cancel_execution` leaves alone: the records that are settled (`Cancellation`).
use mathlib.Core.Path.{subst}
use agent_cdp.Prelude.{
  ℕ, ◌≡◌, refl, Bool, Option, none, some, [], ◌∷◌, if◌then◌else◌, Dict, lookup, if_ind,
}
use agent_cdp.Events.Values.{key_error, Outcome, return, raise, ◌>>=◌}
use agent_cdp.Events.Delivery.{EventResult, is_running}
use agent_cdp.Events.Event.{Event, mark_cancel_requested}
use agent_cdp.Scope.Queue.{Delivery, or_kept, cancel_delivery}
use agent_cdp.Scope.Emission.{World, put_event}
use agent_cdp.Scope.Cancellation.{
  Selection, is_passed_over, call_back, cancel_one, cancel_each, on_queue, cancel_execution,
}
use agent_cdp.Scope.Cancellation.Standing.{
  Stands, AllStand, AllStand-refl, AllStand-trans, put-AllStand, request_cancel-Stands,
  cancel_delivery-AllStand,
}

call_back-AllStand :
    (now : ℕ) (callback : ℕ × ℕ) (running : Bool) (w : World)
    → AllStand w.events (call_back now callback running w).events
unfolding call_back
call_back-AllStand now (t, n) running w = called (lookup n (w.scopes t).event_loop.pending)
  where
    called :
        (o : Option Delivery)
        → AllStand w.events
            (elim o as (λ _. World) [
              | none ↦ w
              | some d ↦ on_queue t (cancel_delivery now d running) w
            ]).events
    called none = AllStand-refl w.events
    called (some d) =
        cancel_delivery-AllStand now d running
          (record { loop = (w.scopes t).event_loop; events = w.events })

-- The state that a call returns keeps the settled records.
abbrev Kept : World → Outcome World → Type 0
Kept w (return w') = AllStand w.events w'.events
Kept w (raise e) = Unit

asked-Kept :
    (now e cid : ℕ) (callback : ℕ × ℕ) (running : Bool) (w : World) (o : Outcome Event)
    → mark_cancel_requested cid (w.events e) ≡ o
    → Kept w (o >>= λ ev. return (call_back now callback running (put_event e ev w)))
asked-Kept now e cid callback running w (raise x) eq = tt
asked-Kept now e cid callback running w (return ev) eq =
    let marked = put-AllStand e ev w.events (
      subst (λ (m : Outcome Event). Stands (w.events e) (or_kept (w.events e) m)) eq
        (request_cancel-Stands cid (w.events e))) in
    AllStand-trans marked (call_back-AllStand now callback running (put_event e ev w))

cancel_one-Kept :
    (now e : ℕ) (selection : Selection) (cid : ℕ) (callback : ℕ × ℕ) (w : World)
    → Kept w (cancel_one now e selection cid callback w)
unfolding cancel_one
cancel_one-Kept now e selection cid callback w = found (lookup cid (w.events e).event_results)
  where
    found :
        (o : Option EventResult)
        → Kept w (elim o as (λ _. Outcome World) [
          | none ↦ raise key_error
          | some r ↦
              if is_passed_over selection cid r
              then return w
              else (mark_cancel_requested cid (w.events e) >>= λ ev.
                  return (call_back now callback (is_running r.status) (put_event e ev w)))
        ])
    found none = tt
    found (some r) =
        if_ind (Kept w) (is_passed_over selection cid r) _ _ (λ _. AllStand-refl w.events)
          (λ _.
            asked-Kept now e cid callback (is_running r.status) w
              (mark_cancel_requested cid (w.events e)) refl)

Kept-trans : (w w' : World) (o : Outcome World) → AllStand w.events w'.events → Kept w' o → Kept w o
Kept-trans w w' (return v) h g = AllStand-trans h g
Kept-trans w w' (raise e) h g = tt

>>=-Kept :
    (w : World) (f : World → Outcome World)
    → ((w' : World) → Kept w' (f w'))
    → (o : Outcome World) → Kept w o
    → Kept w (o >>= f)
>>=-Kept w f keeps (raise x) h = tt
>>=-Kept w f keeps (return w') h = Kept-trans w w' (f w') h (keeps w')

cancel_each-Kept :
    (now e : ℕ) (selection : Selection) (callbacks : Dict (ℕ × ℕ)) (w : World)
    → Kept w (cancel_each now e selection callbacks w)
unfolding cancel_each
cancel_each-Kept now e selection [] w = AllStand-refl w.events
cancel_each-Kept now e selection ((cid, callback) ∷ callbacks) w =
    >>=-Kept w (cancel_each now e selection callbacks) (cancel_each-Kept now e selection callbacks)
      (cancel_one now e selection cid callback w) (cancel_one-Kept now e selection cid callback w)

-- `cancel_execution` changes no delivery record that is settled, of this event or of any other,
-- whatever the selection: what a receiver has answered stands.
pub cancel_execution-AllStand :
    (now e : ℕ) (selection : Selection) (w w' : World)
    → cancel_execution now e selection w ≡ return w'
    → AllStand w.events w'.events
unfolding cancel_execution
cancel_execution-AllStand now e selection w w' returned =
    subst (Kept w) returned (cancel_each-Kept now e selection (w.events e).cancel_callbacks w)
