-- ===== src/Scope/Emission/Apart.antt =====
-- An emission of one event leaves the other events alone, if its handlers do.
use agent_cdp.Prelude.{
  ℕ, ◌+◌, ◌≡◌, refl, ◌∙◌, false, Option, none, some, List, [], ◌∷◌, any, has_key, map, lookup, ◌==◌,
  if_ind, leb, or_else, if◌then◌else◌,
}
use agent_cdp.Events.Values.{Exc, Outcome, return, raise, receiver_contract_error}
use agent_cdp.Events.Delivery.{EventResult}
use agent_cdp.Events.Event.{
  Event, Receiver, ReceiverFailure, EmitPolicy, preflight, mark_running, increment_pending,
}
use agent_cdp.Connection.{Connection, is_direct}
use agent_cdp.Scope.Matching.{get_matching_connections}
use agent_cdp.Scope.Queue.{System, put, prepared, refuses, reject, admit, enqueue, direct_started}
use agent_cdp.Scope.Emission.{
  World, Handled, Dispatched, put_event, put_loop, put_scope, target_of, resolve_mode, count_direct,
  record_handled, prepare_all, with_parent, record_history, cancel_skipped, raised_at_end,
  applicable, dispatch_marked, dispatch_direct, dispatch_queued, dispatch, dispatch_all, emit_to,
  emit_fresh, emit, max_direct_depth,
}

module _ (j e : ℕ) (apart : (j == e) ≡ false) where
  put_apart : (ev : Event) (events : ℕ → Event) → put e ev events j ≡ events j
  put_apart ev events = rw apart refl

  reject_apart :
      (now : ℕ) (c : Receiver) (error : Exc) (s : System)
      → (reject now e c error s).events j ≡ s.events j
  unfolding reject
  reject_apart now c error s = put_apart _ s.events

  admit_apart : (now : ℕ) (c : Receiver) (s : System) → (admit now e c s).events j ≡ s.events j
  unfolding admit
  admit_apart now c s = put_apart _ s.events

  enqueue_apart :
      (now : ℕ) (c : Receiver) (source_id : ℕ) (s : System)
      → (enqueue now e c source_id s).0.events j ≡ s.events j
  unfolding enqueue
  enqueue_apart now c source_id s =
      let ready : System = record {
        loop = record (s.loop) { sequence = s.loop.sequence + 1 };
        events = put e (prepared now c source_id s.loop (s.events e)) s.events;
      } in
      if_ind (λ (x : System × Option Exc). x.0.events j ≡ s.events j) (refuses ready.loop) _ _
        (λ _. reject_apart now c _ ready ∙ put_apart _ s.events)
        (λ _. admit_apart now c ready ∙ put_apart _ s.events)

  module _ (handlers : ℕ → ℕ → World → World × Handled)
      (aloof : (cid : ℕ) (w : World) → (handlers cid e w).0.events j ≡ w.events j)
      (now later source : ℕ) where
    -- The event `j` is as it was.
    abbrev pub IsAlike {ℓ} : {A : Type ℓ} → World → World × A → Type 0
    IsAlike w x = x.0.events j ≡ w.events j

    count_direct_apart :
        (n t : ℕ) (started : ℕ × ℕ) (o : Option EventResult) (w : World)
        → (count_direct n t started o w).events j ≡ w.events j
    count_direct_apart n t started none w = refl
    count_direct_apart n t started (some r) w = refl

    dispatch_marked_apart :
        (c : Connection) (policy : EmitPolicy) (started : ℕ × ℕ) (o : Outcome Event) (w : World)
        → IsAlike w (dispatch_marked handlers now later source e c policy started o w)
    dispatch_marked_apart c policy started (raise x) w = refl
    dispatch_marked_apart c policy started (return ev) w =
        let (w', handled) = handlers c.id e (put_event e ev w) in
        let ended = put_event e (record_handled later c.receiver handled (w'.events e)) w' in
        count_direct_apart later (target_of source c.target_scope) started
          (lookup c.id (ended.events e).event_results) ended
        ∙ put_apart _ w'.events
        ∙ aloof c.id (put_event e ev w)
        ∙ put_apart ev w.events

    dispatch_apart :
        (c : Connection) (policy : EmitPolicy) (w : World)
        → (dispatch handlers now later source e c policy w).0.events j ≡ w.events j
    unfolding dispatch dispatch_direct dispatch_queued
    dispatch_apart c policy w =
        let t = target_of source c.target_scope in
        let s : System = record {
          loop = (w.scopes t).event_loop;
          events = put e (increment_pending (w.events e)) w.events;
        } in
        if_ind (λ (x : World × Option Exc × Option Exc). x.0.events j ≡ w.events j)
          (is_direct (resolve_mode source c.mode c.target_scope)) _ _
          (λ _.
            let (l, n, began) = direct_started now (w.scopes t).event_loop in
            dispatch_marked_apart c policy (n, began) (mark_running now c.id (w.events e))
              (put_loop t l w))
          (λ _.
            enqueue_apart now c.receiver source s
            ∙ put_apart (increment_pending (w.events e)) w.events)

    after_one :
        (cs : List Connection) (w : World) (rejection latest : Option Exc)
        (x : World × Option Exc × Option Exc)
        → x.0.events j ≡ w.events j
        → (rest : Dispatched) → rest.world.events j ≡ x.0.events j
        → (elim x.2 as (λ _. Dispatched) [
          | some err ↦ record { world = x.0; rejection = rejection; error = some err; skipped = cs }
          | none ↦
              if (x.0.events e).consumed
              then record { world = x.0; rejection = latest; error = none; skipped = cs }
              else rest
        ]).world.events
            j
          ≡ w.events j
    after_one cs w rejection latest (w', refused, some err) same rest more = same
    after_one cs w rejection latest (w', refused, none) same rest more =
        if_ind (λ (d : Dispatched). d.world.events j ≡ w.events j) (w'.events e).consumed _ _
          (λ _. same) (λ _. more ∙ same)

    past_checks :
        (checked : Event) (w done : World) (error : Option Exc)
        → done.events j ≡ w.events j
        → (o : Option ReceiverFailure)
        → IsAlike w (elim o as (λ _. World × Option Exc) [
          | some f ↦ (
            put_event e checked w,
            some (receiver_contract_error f.missing_receivers f.required_count f.actual_count),
          )
          | none ↦ (done, error)
        ])
    past_checks checked w done error same none = same
    past_checks checked w done error same (some f) = put_apart checked w.events

    dispatch_all_apart :
        (policy : EmitPolicy) (rejection : Option Exc) (cs : List Connection) (w : World)
        → (dispatch_all handlers now later source e policy rejection cs w).world.events j
          ≡ w.events j
    unfolding dispatch_all
    dispatch_all_apart policy rejection [] w = refl
    dispatch_all_apart policy rejection (c ∷ cs) w =
        let x = dispatch handlers now later source e c policy w in
        let latest = or_else x.1 rejection in
        after_one cs w rejection latest x (dispatch_apart c policy w)
          (dispatch_all handlers now later source e policy latest cs x.0)
          (dispatch_all_apart policy latest cs x.0)

    emit_to_apart :
        (parent : Option ℕ) (cs : List Connection) (w : World)
        → IsAlike w (emit_to handlers now later source e parent cs w)
    unfolding emit_to
    emit_to_apart parent cs w =
        let ev = w.events e in
        let (checked, failure) = preflight (map (λ c. c.receiver) cs) ev in
        let made = prepare_all now source cs (with_parent w parent checked) in
        let noted = put_scope source (record_history e (w.scopes source)) w in
        let ready = put_event e made noted in
        let ran = dispatch_all handlers now later source e ev.emit_policy none cs ready in
        let settled = cancel_skipped later ran.skipped (ran.world.events e) in
        let done = put_event e settled ran.world in
        past_checks checked w done (raised_at_end ran (done.events e))
          (put_apart settled ran.world.events
            ∙ dispatch_all_apart ev.emit_policy none cs ready
            ∙ put_apart made w.events)
          failure

    emit_fresh_apart :
        (parent : Option ℕ) (o : Outcome (List Connection)) (w : World)
        → IsAlike w (emit_fresh handlers now later source e parent o w)
    emit_fresh_apart parent (raise x) w = refl
    emit_fresh_apart parent (return cs) w =
        if_ind (λ (x : World × Option Exc). IsAlike w x)
          (any (λ c. has_key c.id (w.events e).event_results) cs) _ _ (λ _. refl)
          (λ _. emit_to_apart parent cs w)

    -- An emission of the event `e` leaves the event `j` alone.
    pub emit_apart :
        (mro : ℕ → List ℕ) (w : World) → IsAlike w (emit handlers now later source mro e w)
    unfolding emit
    emit_apart mro w =
        let (m, found) =
          get_matching_connections mro w.active (w.events e).event_type (w.scopes source).matcher in
        let entered =
          put_scope source (record (w.scopes source) { matcher = m })
            (record w { emit_depth = w.emit_depth + 1; current_event = some e }) in
        if_ind (λ (x : World × Option Exc). IsAlike w x) (w.scopes source).closed _ _ (λ _. refl)
          (λ _.
            if_ind (λ (x : World × Option Exc). IsAlike w x) (leb max_direct_depth w.emit_depth) _ _
              (λ _. refl)
              (λ _.
                emit_fresh_apart w.current_event (applicable entered (w.events e) found) entered))
