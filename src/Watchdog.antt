-- ===== src/Watchdog.antt =====
-- src/agent_cdp/_watchdog_registry.py: `WatchdogBinding`, and `WatchdogBase` with the bindings of
-- one watchdog. A binding is an object in a store. A close callback stands by a number; whether it
-- fails, and what it does to the program, are given to the model.
pub mod Cleanup
pub mod Closed
pub mod Detaching
use agent_cdp.Prelude.{
  ℕ, ◌+◌, Bool, true, false, not, ◌&&◌, Option, none, some, List, [], ◌∷◌, ◌++◌, contains, select,
  ◌==◌, if◌then◌else◌, drop_first,
}
use agent_cdp.Events.Values.{
  Exc, value_error, exception_group, is_cancelled, Outcome, return, raise, ◌>>=◌,
}
use agent_cdp.Connection.{Connection}
use agent_cdp.Scope.Matching.{remove}
use agent_cdp.Scope.Emission.{World}
use agent_cdp.Scope.Linking.{disconnect}
use agent_cdp.Scope.Closing.{Resources, add_close_callback, remove_close_callback}

-- `on_closed` says whether the function that is called at the end is still there; it is the one of
-- `track_binding`.
pub record Binding : Type 0 where
  pub scope : ℕ
  pub session_id : Option ℕ
  pub connections : List Connection
  pub close_callbacks : List ℕ
  pub closed : Bool
  pub on_closed : Bool

-- The program, with the resources of its scopes, the bindings, and those that the watchdog tracks.
pub record Watchdogs : Type 0 where
  pub world : World
  pub resources : ℕ → Resources
  pub objects : ℕ → Binding
  pub tracked : List ℕ

abbrev pub put_binding : ℕ → Binding → Watchdogs → Watchdogs
put_binding b binding s = record s { objects = λ k. if k == b then binding else s.objects k }

abbrev pub put_resources : ℕ → Resources → Watchdogs → Watchdogs
put_resources t r s = record s { resources = λ k. if k == t then r else s.resources k }

-- The active bindings, `bindings`.
abbrev pub active_bindings : Watchdogs → List ℕ
active_bindings s = select (λ b. not (s.objects b).closed) s.tracked

-- `bindings[:] = [binding for binding in bindings if not binding.closed]`
abbrev pub forget_closed : Watchdogs → Watchdogs
forget_closed s = record s { tracked = active_bindings s }

abbrev pub same_session : Option ℕ → Option ℕ → Bool
same_session none none = true
same_session (some i) (some j) = i == j
same_session _ _ = false

abbrev pub is_match : ℕ → Option ℕ → Binding → Bool
is_match scope session_id binding =
    binding.scope == scope && same_session binding.session_id session_id

-- `close_of b` is the number of the method `close` of the binding `b`.
module _ (close_of : ℕ → ℕ) where
  -- `WatchdogBinding.__init__`, for the new object `b`.
  unfoldable pub new_binding :
      (b scope : ℕ)
      → Option ℕ
      → List Connection
      → List ℕ
      → (on_closed : Bool) → Watchdogs
      → Outcome Watchdogs
  unfolding add_close_callback
  new_binding b scope session_id connections close_callbacks on_closed s =
      let binding : Binding = record {
        scope = scope;
        session_id = session_id;
        connections = connections;
        close_callbacks = close_callbacks;
        closed = false;
        on_closed = on_closed;
      } in
      add_close_callback (close_of b) (s.resources scope) >>= λ r.
      return (put_resources scope r (put_binding b binding s))

  -- A tracking that raises leaves the watchdog with the bindings that are not closed.
  unfoldable pub track_binding :
      (b scope : ℕ) → Option ℕ → List Connection → List ℕ → Watchdogs → Watchdogs × Outcome ℕ
  unfolding new_binding
  track_binding b scope session_id connections close_callbacks s =
      let kept = forget_closed s in
      elim (new_binding b scope session_id connections close_callbacks true kept) [
        | raise e ↦ (kept, raise e)
        | return s' ↦ (record s' { tracked = s'.tracked ++ b ∷ [] }, return b)
      ]

-- The first loop of `close`.
unfoldable pub disconnect_all : ℕ → List Connection → Watchdogs → Watchdogs
unfolding disconnect
disconnect_all b [] s = s
disconnect_all b (c ∷ cs) s =
    let binding = s.objects b in
    disconnect_all b cs (
      put_binding b (record binding { connections = remove c.id binding.connections })
        (record s { world = disconnect c s.world }))

-- The end of `close`: `bindings.remove(binding)` raises if the binding is not there.
abbrev pub call_on_closed : ℕ → Bool → Watchdogs → Watchdogs × Option Exc
call_on_closed b false s = (s, none)
call_on_closed b true s =
    if contains b s.tracked
    then (record s { tracked = drop_first b s.tracked }, none)
    else (s, some value_error)

-- `except Exception as exc: errors.append(exc)`, where the rest of the loop is given.
abbrev pub collect_error :
    (now : Watchdogs) (succeeded failed : Watchdogs × Outcome ℕ)
    → Option Exc
    → Watchdogs × Outcome ℕ
collect_error s succeeded failed none = succeeded
collect_error s succeeded failed (some e) =
    if is_cancelled e then (s, raise e) else (failed.0, failed.1 >>= λ errors. return (errors + 1))

module _ (fails : ℕ → Option Exc) (effect : ℕ → World → World) where
  -- The second loop, and the number of the errors. What a callback does, `effect`, is a change of the
  -- connections, events and queues, not of bindings or of a scope's close callbacks.
  unfoldable pub run_callbacks : ℕ → List ℕ → Watchdogs → Watchdogs × Outcome ℕ
  run_callbacks b [] s = (s, return 0)
  run_callbacks b (k ∷ ks) s =
      let called : Watchdogs = record s { world = effect k s.world } in
      let binding = s.objects b in
      let done =
        put_binding b (record binding { close_callbacks = drop_first k binding.close_callbacks })
          called in
      let retained = run_callbacks b ks called in
      let dropped = run_callbacks b ks done in collect_error called dropped retained (fails k)

module _ (close_of : ℕ → ℕ) where
  -- From `self.closed = True` on.
  unfoldable pub finish_binding : ℕ → Watchdogs → Watchdogs × Option Exc
  unfolding remove_close_callback
  finish_binding b s =
      let binding = s.objects b in
      call_on_closed b binding.on_closed (
        put_resources binding.scope (remove_close_callback (close_of b) (s.resources binding.scope))
          (put_binding b (record binding { closed = true; on_closed = false }) s))

  abbrev pub after_cleanup : ℕ → Watchdogs → Outcome ℕ → Watchdogs × Option Exc
  after_cleanup b s (raise e) = (s, some e)
  after_cleanup b s (return errors) =
      if errors == 0 then finish_binding b s else (s, some (exception_group errors))

module _ (close_of : ℕ → ℕ) (fails : ℕ → Option Exc) (effect : ℕ → World → World) where
  -- `WatchdogBinding.close`
  unfoldable pub close_binding : ℕ → Watchdogs → Watchdogs × Option Exc
  unfolding disconnect_all run_callbacks finish_binding
  close_binding b s =
      let binding = s.objects b in
      let (s', errors) =
        run_callbacks fails effect b binding.close_callbacks
          (disconnect_all b binding.connections s) in
      if binding.closed then (s, none) else after_cleanup close_of b s' errors

  -- The loop of `detach`.
  unfoldable pub close_matching :
      (scope : ℕ) → Option ℕ → List ℕ → Watchdogs → Watchdogs × Outcome ℕ
  unfolding close_binding
  close_matching scope session_id [] s = (s, return 0)
  close_matching scope session_id (b ∷ bs) s =
      let (s', error) = close_binding b s in
      let rest = close_matching scope session_id bs s' in
      let skipped = close_matching scope session_id bs s in
      if not (is_match scope session_id (s.objects b))
      then skipped
      else collect_error s' rest rest error

  -- `WatchdogBase.detach`
  unfoldable pub detach : (scope : ℕ) → Option ℕ → Watchdogs → Watchdogs × Option Exc
  unfolding close_matching
  detach scope session_id s =
      let (s', errors) = close_matching scope session_id (active_bindings s) s in
      elim errors [
        | raise e ↦ (s', some e)
        | return n ↦ (forget_closed s', if n == 0 then none else some (exception_group n))
      ]
