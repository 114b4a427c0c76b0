-- ===== src/Expect.antt =====
-- src/agent_cdp/advanced/expect.py: `EventWaiter`. What it leaves in its scope is part of the state:
-- the observer connection, and its `close` among the scope's close callbacks.
pub mod Lifecycle
pub mod Cancelling
use agent_cdp.Prelude.{
  ℕ, ◌+◌, Bool, true, false, not, ◌&&◌, Option, none, some, List, [], ◌∷◌, if◌then◌else◌, ℤ,
}
use agent_cdp.Events.Values.{
  Exc, timeout_error, value_error, runtime_error, Outcome, return, raise, ◌>>=◌,
}

-- The waiter's future. `received` holds the event.
pub data Future : Type 0 where
  pending cancelled : Future
  received : ℕ → Future
  failed : Exc → Future

abbrev pub is_pending : Future → Bool
is_pending Future.pending = true
is_pending _ = false

-- `connected` and `registered` are the two entries in the scope. `timer` is the time at which the
-- budget ends.
pub record EventWaiter : Type 0 where
  pub future : Future
  pub scope : Option ℕ
  pub connection : Option ℕ
  pub timer : Option ℕ
  pub closed : Bool
  pub connected : Bool
  pub registered : Bool

abbrev pub done : EventWaiter → Bool
done w = not (is_pending w.future)

abbrev pub deadline : ℕ → Option ℤ → Outcome (Option ℕ)
deadline now none = return none
deadline now (some (ℤ.pos t)) = return (some (now + t))
deadline now (some (ℤ.negsuc t)) = raise value_error

-- The constructor. `connect` refuses a closed scope.
unfoldable pub new_waiter : (now scope connection : ℕ) → Bool → Option ℤ → Outcome EventWaiter
new_waiter now scope connection scope_closed timeout = deadline now timeout >>= λ timer.
    if scope_closed
    then raise runtime_error
    else return (record {
      future = Future.pending;
      scope = some scope;
      connection = some connection;
      timer = timer;
      closed = false;
      connected = true;
      registered = true;
    })

-- `_detach`
unfoldable pub detach : EventWaiter → EventWaiter
detach w = if w.closed then w else record w {
  scope = none;
  connection = none;
  timer = none;
  closed = true;
  connected = false;
  registered = false;
}

-- `include(event) and not exclude(event)`, either of which may raise.
abbrev pub matches : (include exclude : ℕ → Outcome Bool) → ℕ → Outcome Bool
matches include exclude e =
    include e >>= λ yes. if yes then (exclude e >>= λ no. return (not no)) else return false

-- `receive`, the handler: what it raises goes to the dispatch and leaves the waiter alone.
abbrev pub settle_match : ℕ → Outcome Bool → EventWaiter → EventWaiter
settle_match e (return true) w = detach (record w { future = Future.received e })
settle_match e (return false) w = w
settle_match e (raise x) w = w

unfoldable pub receive : (include exclude : ℕ → Outcome Bool) → ℕ → EventWaiter → EventWaiter
unfolding detach
receive include exclude e w =
    if is_pending w.future then settle_match e (matches include exclude e) w else w

-- `expire`, when the timer goes off.
unfoldable pub expire : EventWaiter → EventWaiter
unfolding detach
expire w =
    detach (if is_pending w.future then record w { future = Future.failed timeout_error } else w)

-- `close`, which the scope calls when it closes, and the awaiting caller at its end.
unfoldable pub close : EventWaiter → EventWaiter
unfolding detach
close w = detach (if is_pending w.future then record w { future = Future.cancelled } else w)

-- `_wait` under a cancellation of the task that awaits it: the future is cancelled at once. The
-- `close` at the end of `_wait` is run later, when the task gets to it.
abbrev pub cancel_wait : EventWaiter → EventWaiter
cancel_wait w = if is_pending w.future then record w { future = Future.cancelled } else w
