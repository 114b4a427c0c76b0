-- ===== src/Scope/Emission/Dispatch.antt =====
-- scope.py: `_dispatch_direct`, the queued branch, and `emit`.
use agent_cdp.Prelude.{
  ℕ, ◌+◌, Option, none, some, List, [], ◌∷◌, lookup, has_key, any, leb, if◌then◌else◌, map, or_else,
}
use agent_cdp.Events.Values.{
  Exc, value_error, runtime_error, recursion_error, receiver_contract_error, Outcome, return, raise,
}
use agent_cdp.Events.Event.{EmitPolicy, Event, preflight, mark_running, increment_pending}
use agent_cdp.Connection.{is_direct, Connection}
use agent_cdp.Scope.Matching.{get_matching_connections}
use agent_cdp.Scope.Queue.{put, enqueue, direct_started, direct_finished}
use agent_cdp.Scope.Emission.State.{
  World, Handled, put_scope, put_loop, put_event, record_history, resolve_mode, target_of,
  applicable, prepare_all, record_handled, error_handled, count_direct, max_direct_depth,
  Dispatched, cancel_skipped, with_parent, raised_at_end,
}

-- `later` is the time at which a handler ends, or a skipped delivery is cancelled.
module _ (handlers : ℕ → ℕ → World → World × Handled) (now later source : ℕ) where
  -- `_dispatch_direct` once its delivery is marked as running, or is missing.
  abbrev pub dispatch_marked :
      ℕ → Connection → EmitPolicy → ℕ × ℕ → Outcome Event → World → World × Option Exc
  dispatch_marked e c policy started (raise x) w = (w, some x)
  dispatch_marked e c policy started (return ev) w =
      let (w', handled) = handlers c.id e (put_event e ev w) in
      let ended = put_event e (record_handled later c.receiver handled (w'.events e)) w' in
      (
        count_direct later (target_of source c.target_scope) started
            (lookup c.id (ended.events e).event_results) ended,
        error_handled policy handled,
      )

  unfoldable pub dispatch_direct : ℕ → Connection → EmitPolicy → World → World × Option Exc
  unfolding record_handled direct_started direct_finished
  dispatch_direct e c policy w =
      let t = target_of source c.target_scope in
      let (l, n, began) = direct_started now (w.scopes t).event_loop in
      dispatch_marked e c policy (n, began) (mark_running now c.id (w.events e)) (put_loop t l w)

  -- The queued branch of the loop of `emit`.
  unfoldable pub dispatch_queued : ℕ → Connection → World → World × Option Exc
  unfolding enqueue increment_pending
  dispatch_queued e c w =
      let t = target_of source c.target_scope in
      let (s, error) = enqueue now e c.receiver source (record {
        loop = (w.scopes t).event_loop;
        events = put e (increment_pending (w.events e)) w.events;
      }) in
      (put_loop t s.loop (record w { events = s.events }), error)

  -- One connection: the state, the rejection that a queue gave, and what was raised.
  unfoldable pub dispatch : ℕ → Connection → EmitPolicy → World → World × Option Exc × Option Exc
  unfolding dispatch_direct dispatch_queued resolve_mode
  dispatch e c policy w =
      if is_direct (resolve_mode source c.mode c.target_scope)
      then (let (w', error) = dispatch_direct e c policy w in (w', none, error))
      else (let (w', refused) = dispatch_queued e c w in (w', refused, none))

  -- The loop of `emit`: it ends after a connection that raises or consumes the event.
  unfoldable pub dispatch_all : ℕ → EmitPolicy → Option Exc → List Connection → World → Dispatched
  unfolding dispatch
  dispatch_all e policy rejection [] w = record {
    world = w;
    rejection = rejection;
    error = none;
    skipped = [];
  }
  dispatch_all e policy rejection (c ∷ cs) w =
      let (w', refused, error) = dispatch e c policy w in
      let latest = or_else refused rejection in
      let rest = dispatch_all e policy latest cs w' in
      elim error [
        | some x ↦ record { world = w'; rejection = rejection; error = some x; skipped = cs }
        | none ↦
            if (w'.events e).consumed
            then record { world = w'; rejection = latest; error = none; skipped = cs }
            else rest
      ]

  -- The rest of `emit` from `_preflight` on, for the connections that apply.
  unfoldable pub emit_to : ℕ → Option ℕ → List Connection → World → World × Option Exc
  unfolding preflight prepare_all record_history cancel_skipped dispatch_all
  emit_to e parent cs w =
      let ev = w.events e in
      let (checked, failure) = preflight (map (λ c. c.receiver) cs) ev in
      let ready =
        put_event e (prepare_all now source cs (with_parent w parent checked))
          (put_scope source (record_history e (w.scopes source)) w) in
      let ran = dispatch_all e ev.emit_policy none cs ready in
      let done = put_event e (cancel_skipped later ran.skipped (ran.world.events e)) ran.world in
      elim failure [
        | some f ↦ (
          put_event e checked w,
          some (receiver_contract_error f.missing_receivers f.required_count f.actual_count),
        )
        | none ↦ (done, raised_at_end ran (done.events e))
      ]

  -- No delivery is made twice.
  abbrev pub emit_fresh : ℕ → Option ℕ → Outcome (List Connection) → World → World × Option Exc
  emit_fresh e parent (raise x) w = (w, some x)
  emit_fresh e parent (return cs) w =
      if any (λ c. has_key c.id (w.events e).event_results) cs
      then (w, some value_error)
      else emit_to e parent cs w

  unfoldable pub emit : (mro : ℕ → List ℕ) → ℕ → World → World × Option Exc
  unfolding get_matching_connections applicable emit_to
  emit mro e w =
      let scope = w.scopes source in
      let ev = w.events e in
      let (m, found) = get_matching_connections mro w.active ev.event_type scope.matcher in
      let entered =
        put_scope source (record scope { matcher = m })
          (record w { emit_depth = w.emit_depth + 1; current_event = some e }) in
      let (left, error) = emit_fresh e w.current_event (applicable entered ev found) entered in
      if scope.closed
      then (w, some runtime_error)
      else if leb max_direct_depth w.emit_depth
      then (w, some recursion_error)
      else (record left { emit_depth = w.emit_depth; current_event = w.current_event }, error)
