-- ===== src/Scope/Closing/Shutdown.antt =====
-- scope.py: `close` as a whole, and `start`, on the scope `t` of a program. What waits for the lock,
-- and what others do while `close` waits for the queue, is given to the model.
pub mod Released
pub mod Silent
pub mod Verdict
use agent_cdp.Prelude.{
  ℕ, Bool, true, false, not, ◌||◌, Option, none, some, List, [], ◌∷◌, length, is_empty, keys,
  if◌then◌else◌, ℤ, is_negative,
}
use agent_cdp.Events.Values.{
  Exc, runtime_error, value_error, exception_group, Outcome, return, raise, ◌>>=◌,
}
use agent_cdp.Events.Delivery.{DeliveryDiagnostic}
use agent_cdp.Connection.{Connection}
use agent_cdp.Scope.Matching.{typed, clear_caches}
use agent_cdp.Scope.Queue.{System, start, stop, pending_diagnostics}
use agent_cdp.Scope.Emission.{World, put_scope, put_loop}
use agent_cdp.Scope.Linking.{disconnect}
use agent_cdp.Scope.Closing.{
  Resources, Called, TaskStatus, close_resources, CloseResult, close_result, finish_close,
}

-- `EventScope.start`
unfoldable pub start_scope : ℕ → World → Outcome World
unfolding start
start_scope t w =
    if (w.scopes t).closed
    then raise runtime_error
    else (start (w.scopes t).event_loop >>= λ l. return (put_loop t l w))

unfoldable pub disconnect_each : List Connection → World → World
unfolding disconnect
disconnect_each [] w = w
disconnect_each (c ∷ cs) w = disconnect_each cs (disconnect c w)

-- The typed connections, one list after another, each as it is when its turn comes.
unfoldable pub disconnect_typed : ℕ → List ℕ → World → World
unfolding disconnect_each
disconnect_typed t [] w = w
disconnect_typed t (cls ∷ classes) w =
    disconnect_typed t classes
      (disconnect_each (typed cls (w.scopes t).matcher.connections_by_type) w)

-- What a complete `close` does to the connections of its scope.
unfoldable pub release : ℕ → World → World
unfolding disconnect_typed
release t w =
    let w1 = disconnect_typed t (keys (w.scopes t).matcher.connections_by_type) w in
    let w2 = disconnect_each (w1.scopes t).matcher.catch_all_connections w1 in
    let w3 = disconnect_each (w2.scopes t).incoming w2 in
    put_scope t (record (w3.scopes t) { matcher = clear_caches (w3.scopes t).matcher }) w3

-- The program, with the resources of the scope that is closed.
pub record Closing : Type 0 where
  pub world : World
  pub resources : Resources

abbrev pub set_closed : ℕ → Closing → Closing
set_closed t s = record {
  world = put_scope t (record (s.world.scopes t) { closed = true }) s.world;
  resources = record (s.resources) { closed = true };
}

-- The queue of the scope, with the events.
abbrev pub queue_of : ℕ → World → System
queue_of t w = record { loop = (w.scopes t).event_loop; events = w.events }

-- The answer of a call that does not get the lock in time, and of one on a scope that is closed.
abbrev pub early : Bool → Option (List DeliveryDiagnostic) → Resources → Outcome CloseResult
early got_lock pending r =
    if got_lock
    then close_result true (some []) 0
    else close_result false pending (length r.close_callbacks)

module _ (now later t : ℕ) (graceful : Bool) (budget : ℕ) (others : System → System) where
  -- `self._event_loop.stop(...)`, with `budget` for what is left of the timeout, not below 0.
  unfoldable pub stop_queue : World → World × Outcome Bool
  unfolding stop
  stop_queue w =
      let (s', stopped) = stop now later graceful (ℤ.pos budget) others (queue_of t w) in
      (put_loop t s'.loop (record w { events = s'.events }), stopped)

  -- From the stop of the queue on.
  unfoldable pub stop_and_release : List Exc → Closing → Closing × Outcome CloseResult
  unfolding stop_queue release finish_close pending_diagnostics
  stop_and_release errors s =
      let (w, stopped) = stop_queue s.world in
      elim stopped [
        | raise e ↦ (record s { world = w }, raise e)
        | return done ↦
            let pending = pending_diagnostics later (queue_of t w) in
            let (r, result) = finish_close done errors pending s.resources in
            (record { world = if r.is_closed then release t w else w; resources = r }, result)
      ]

-- `cleaned` is what the callbacks and their tasks do to the program.
module _ (called : ℕ → Called) (withdraws : ℕ → Bool) (status : ℕ → TaskStatus)
    (cleaned : World → World) (now later t : ℕ) (graceful : Bool) (budget : ℕ)
    (others : System → System) where
  unfoldable pub close_locked : Closing → Closing × Outcome CloseResult
  unfolding close_resources stop_and_release
  close_locked s =
      let (r, errors) = close_resources called withdraws status s.resources in
      let left : Closing = record { world = cleaned s.world; resources = r } in
      elim errors [
        | raise e ↦ (left, raise e)
        | return es ↦ stop_and_release now later t graceful budget others es left
      ]

  unfoldable pub close : (timeout : ℤ) (got_lock : Bool) → Closing → Closing × Outcome CloseResult
  unfolding close_locked pending_diagnostics
  close timeout got_lock s =
      let told = set_closed t s in
      if is_negative timeout
      then (s, raise value_error)
      else if not got_lock || told.resources.is_closed
      then (told, early got_lock (pending_diagnostics later (queue_of t told.world)) told.resources)
      else close_locked told
