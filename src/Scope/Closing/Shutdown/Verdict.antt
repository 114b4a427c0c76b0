-- ===== src/Scope/Closing/Shutdown/Verdict.antt =====
-- What a `close` that reports to be complete has done (`Shutdown`).
use mathlib.Core.Path.{subst}
use agent_cdp.Prelude.{
  ℕ, ◌≡◌, refl, ap, ◌∙◌, Bool, true, false, not, ◌&&◌, ◌||◌, Option, none, some, length, List, [],
  ◌∷◌, is_empty, keys, ==_refl, if_ind, if◌then◌else◌, ℤ, arith, is_negative,
}
use agent_cdp.Events.Values.{Exc, Outcome, return, raise}
use agent_cdp.Events.Delivery.{DeliveryDiagnostic}
use agent_cdp.Connection.{Connection}
use agent_cdp.Scope.Matching.{typed, clear_caches, get_matching_connections}
use agent_cdp.Scope.Queue.{
  System, Loop, stop, waits_for, request_stop, finish_stop, is_alive, pending_diagnostics,
}
use agent_cdp.Scope.Emission.{World, put_loop}
use agent_cdp.Scope.Linking.{disconnect}
use agent_cdp.Scope.Linking.Stored.{Place, list_at, put-loop, disconnect-loop}
use agent_cdp.Scope.Closing.{
  Resources, Called, TaskStatus, CloseResult, close_result, close_resources, finish_close,
}
use agent_cdp.Scope.Closing.Shutdown.{
  Closing, disconnect_each, disconnect_typed, release, set_closed, early, queue_of, stop_queue,
  stop_and_release, close_locked, close,
}
use agent_cdp.Scope.Closing.Shutdown.Released.{typed_gone, all_gone}
use agent_cdp.Scope.Closing.Shutdown.Silent.{let_go, release-silent}

-- A scope that is closed down: no callback and no cleanup task is left, nothing is pending in its
-- queue, and no lookup finds a connection.
pub record ClosedDown (t : ℕ) (s : Closing) : Type 0 where
  pub is_closed : s.resources.is_closed ≡ true
  pub callbacks : s.resources.close_callbacks ≡ []
  pub tasks : s.resources.cleanup_tasks ≡ []
  pub pending : (s.world.scopes t).event_loop.pending ≡ []
  pub silent :
      (mro : ℕ → List ℕ) (event_type : ℕ)
      → (get_matching_connections mro s.world.active event_type (s.world.scopes t).matcher).1 ≡ []

each-loop :
    (cs : List Connection) (t : ℕ) (w : World)
    → ((disconnect_each cs w).scopes t).event_loop ≡ (w.scopes t).event_loop
unfolding disconnect_each
each-loop [] t w = refl
each-loop (c ∷ cs) t w = each-loop cs t (disconnect c w) ∙ disconnect-loop c t w

typed-loop :
    (k : ℕ) (classes : List ℕ) (t : ℕ) (w : World)
    → ((disconnect_typed k classes w).scopes t).event_loop ≡ (w.scopes t).event_loop
unfolding disconnect_typed
typed-loop k [] t w = refl
typed-loop k (cls ∷ classes) t w =
    typed-loop k classes t _ ∙ each-loop (typed cls (w.scopes k).matcher.connections_by_type) t w

-- Releasing the connections leaves the queue alone.
release-loop : (t : ℕ) (w : World) → ((release t w).scopes t).event_loop ≡ (w.scopes t).event_loop
unfolding release
release-loop t w =
    put-loop t t
      (record ((let_go t w).scopes t) { matcher = clear_caches ((let_go t w).scopes t).matcher })
      (let_go t w) refl
    ∙ each-loop (list_at Place.incoming ((all_gone t w).scopes t)) t (all_gone t w)
    ∙ each-loop (list_at Place.catch_all ((typed_gone t w).scopes t)) t (typed_gone t w)
    ∙ typed-loop t (keys (w.scopes t).matcher.connections_by_type) t w

is_empty-nil {ℓ} : {A : Type ℓ} (xs : List A) → is_empty xs ≡ true → xs ≡ []
is_empty-nil [] h = refl
is_empty-nil (x ∷ xs) h = cc

-- A queue that has stopped has nothing pending.
abbrev Emptied : System × Bool → Type 0
Emptied x = x.1 ≡ true → x.0.loop.pending ≡ []

finish_stop-Emptied : (now : ℕ) (s : System) → Emptied (finish_stop now s)
unfolding finish_stop
finish_stop-Emptied now s =
    if_ind Emptied (is_alive s.loop.task) _ _ (λ _ h. cc) (λ _ h. is_empty-nil _ h)

-- `close` gave a result, and if it is complete, the scope is closed down.
abbrev Verdict : ℕ → Closing × Outcome CloseResult → Type 0
Verdict t (s, raise e) = Unit
Verdict t (s, return result) = result.complete ≡ true → ClosedDown t s

all_three : (a : Bool) {b c : Bool} → (a && b && c) ≡ true → (a ≡ true) × (b ≡ true) × (c ≡ true)
all_three a h = (ground arith, ground arith, ground arith)

-- A verdict on a result, where there is one.
result-Verdict :
    (t : ℕ) (complete : Bool) (pending : Option (List DeliveryDiagnostic)) (n : ℕ) (s : Closing)
    → (complete ≡ true → ClosedDown t s)
    → Verdict t (s, close_result complete pending n)
result-Verdict t complete none n s h = tt
result-Verdict t complete (some pending) n s h = h

-- `finish_close`, with the release of the connections.
finished :
    (t : ℕ) (done : Bool) (errors : List Exc) (pending : Option (List DeliveryDiagnostic))
    (w : World) (r : Resources)
    → (done ≡ true → (w.scopes t).event_loop.pending ≡ [])
    → let x = finish_close done errors pending r in
      Verdict t (record { world = if x.0.is_closed then release t w else w; resources = x.0 }, x.1)
unfolding finish_close
finished t done errors pending w r empty =
    let complete = done && is_empty r.cleanup_tasks && is_empty r.close_callbacks in
    if_ind
      (λ (x : Resources × Outcome CloseResult).
        Verdict t
          (record { world = if x.0.is_closed then release t w else w; resources = x.0 }, x.1))
      (is_empty errors) _ _
      (λ _.
        let left = if complete then record r { is_closed = true } else r in
        result-Verdict t complete pending (length r.close_callbacks)
          (record { world = if left.is_closed then release t w else w; resources = left })
          (λ h.
            let (stopped, no_tasks, no_callbacks) = all_three done h in
            rw h (record {
              is_closed = refl;
              callbacks = is_empty-nil r.close_callbacks no_callbacks;
              tasks = is_empty-nil r.cleanup_tasks no_tasks;
              pending = ap (λ (l : Loop). l.pending) (release-loop t w) ∙ empty stopped;
              silent = release-silent t w;
            })))
      (λ _. tt)

module _ (now later t : ℕ) (graceful : Bool) (budget : ℕ) (others : System → System) where
  stop_and_release-Verdict :
      (errors : List Exc) (s : Closing)
      → Verdict t (stop_and_release now later t graceful budget others errors s)
  unfolding stop_and_release stop_queue stop
  stop_and_release-Verdict errors s =
      let asked = request_stop now graceful (queue_of t s.world) in
      let waited = if waits_for (ℤ.pos budget) asked.loop then others asked else asked in
      let (s', done) = finish_stop later waited in
      let w = put_loop t s'.loop (record (s.world) { events = s'.events }) in
      finished t done errors (pending_diagnostics later (queue_of t w)) w s.resources
        (λ h. rw (==_refl t) (finish_stop-Emptied later waited h))

-- A call that does not get the lock is not complete.
early-Verdict :
    (t : ℕ) (got_lock : Bool) (pending : Option (List DeliveryDiagnostic)) (s : Closing)
    → (not got_lock || s.resources.is_closed) ≡ true
    → s.resources.is_closed ≡ false
    → Verdict t (s, early got_lock pending s.resources)
early-Verdict t true pending s e fresh = cc
early-Verdict t false pending s e fresh =
    result-Verdict t false pending (length s.resources.close_callbacks) s (λ h. cc)

module _ (called : ℕ → Called) (withdraws : ℕ → Bool) (status : ℕ → TaskStatus)
    (cleaned : World → World) (now later t : ℕ) (graceful : Bool) (budget : ℕ)
    (others : System → System) where
  close_locked-Verdict :
      (s : Closing)
      → Verdict t
          (close_locked called withdraws status cleaned now later t graceful budget others s)
  unfolding close_locked
  close_locked-Verdict s = cleaned_up (close_resources called withdraws status s.resources).1
    where
      left : Closing
      left = record {
        world = cleaned s.world;
        resources = (close_resources called withdraws status s.resources).0;
      }

      cleaned_up :
          (o : Outcome (List Exc))
          → Verdict t (elim o as (λ _. Closing × Outcome CloseResult) [
            | raise e ↦ (left, raise e)
            | return es ↦ stop_and_release now later t graceful budget others es left
          ])
      cleaned_up (raise e) = tt
      cleaned_up (return es) = stop_and_release-Verdict now later t graceful budget others es left

  -- A `close` of a scope that was not closed yet, and that reports to be complete, has closed it
  -- down, whatever its callbacks, their tasks, its handlers and whoever runs meanwhile do: no close
  -- callback and no cleanup task is left, nothing is pending in its queue, and no lookup of the
  -- scope finds a connection any more, whatever the caches held.
  pub close-ClosedDown :
      (timeout : ℤ) (got_lock : Bool) (s s' : Closing) (result : CloseResult)
      → close called withdraws status cleaned now later t graceful budget others timeout got_lock s
        ≡ (s', return result)
      → s.resources.is_closed ≡ false
      → result.complete ≡ true
      → ClosedDown t s'
  unfolding close
  close-ClosedDown timeout got_lock s s' result e fresh = subst (Verdict t) e (
      if_ind (Verdict t) (is_negative timeout) _ _ (λ _. tt)
        (λ _.
          if_ind (Verdict t) (not got_lock || s.resources.is_closed) _ _
            (λ e.
              early-Verdict t got_lock
                (pending_diagnostics later (queue_of t (set_closed t s).world)) (set_closed t s) e
                fresh)
            (λ _. close_locked-Verdict (set_closed t s))))
