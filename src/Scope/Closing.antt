-- ===== src/Scope/Closing.antt =====
-- src/agent_cdp/scope/scope.py: the close callbacks of a scope and what `close` does with them, up
-- to the stop of the queue and after it. A callback stands by a number, and so does the task that
-- cleans up for it, since it has one at most. What calling a callback does, whether it withdraws
-- itself from the scope meanwhile, and how its task ends are values that the model is given.
pub mod Retained
pub mod Shutdown
use agent_cdp.Prelude.{
  ℕ, Bool, true, false, not, ◌&&◌, Option, none, some, List, [], ◌∷◌, ◌++◌, length, is_empty,
  contains, if◌then◌else◌, ◌==◌, drop_first,
}
use agent_cdp.Events.Values.{
  Exc, key_error, runtime_error, exception_group, is_cancelled, Outcome, return, raise, ◌>>=◌,
}
use agent_cdp.Events.Delivery.{DeliveryDiagnostic}

-- `asked` holds the tasks that were asked to end.
pub record Resources : Type 0 where
  pub closed : Bool
  pub is_closed : Bool
  pub close_callbacks : List ℕ
  pub cleanup_tasks : List ℕ
  pub asked : List ℕ

pub data Called : Type 0 where
  finishes awaits : Called
  raises : Exc → Called

pub data TaskStatus : Type 0 where
  unfinished ended was_cancelled : TaskStatus
  fails : Exc → TaskStatus

abbrev pub add_missing : ℕ → List ℕ → List ℕ
add_missing k ks = if contains k ks then ks else ks ++ k ∷ []

unfoldable pub add_close_callback : ℕ → Resources → Outcome Resources
add_close_callback k r =
    if r.closed
    then raise runtime_error
    else return (record r { close_callbacks = add_missing k r.close_callbacks })

unfoldable pub remove_close_callback : ℕ → Resources → Resources
remove_close_callback k r = record r { close_callbacks = drop_first k r.close_callbacks }

-- A callback that failed stays for the next `close`.
abbrev pub restore : ℕ → Resources → Resources
restore k r = record r { close_callbacks = add_missing k r.close_callbacks }

-- The first loop of `close`, and the errors of the callbacks.
module _ (called : ℕ → Called) (withdraws : ℕ → Bool) where
  abbrev pub called_back : ℕ → Called → Resources → Resources × Outcome (List Exc)
  called_back k finishes r = (remove_close_callback k r, return [])
  called_back k awaits r = (record r { cleanup_tasks = r.cleanup_tasks ++ k ∷ [] }, return [])
  called_back k (raises e) r =
      if is_cancelled e then (r, raise e) else (restore k r, return (e ∷ []))

  unfoldable pub start_one : ℕ → Resources → Resources × Outcome (List Exc)
  unfolding remove_close_callback
  start_one k r =
      if contains k r.cleanup_tasks
      then (r, return [])
      else called_back k (called k) (if withdraws k then remove_close_callback k r else r)

  abbrev pub joined : Outcome (List Exc) → Outcome (List Exc) → Outcome (List Exc)
  joined errors more = errors >>= λ es. more >>= λ fs. return (es ++ fs)

  unfoldable pub start_each : List ℕ → Resources → Resources × Outcome (List Exc)
  unfolding start_one
  start_each [] r = (r, return [])
  start_each (k ∷ ks) r =
      let (r', errors) = start_one k r in
      elim errors [
        | raise e ↦ (r', raise e)
        | return es ↦ let (r'', more) = start_each ks r' in (r'', joined (return es) more)
      ]

-- The second loop, after the wait for the tasks.
module _ (status : ℕ → TaskStatus) where
  abbrev pub popped : ℕ → Resources → Resources
  popped k r = record r {
    cleanup_tasks = drop_first k r.cleanup_tasks;
    asked = drop_first k r.asked;
  }

  -- An error that is no `Exception` counts as an end.
  abbrev pub collected : ℕ → TaskStatus → Resources → Resources × List Exc
  collected k unfinished r = (record r { asked = add_missing k r.asked }, [])
  collected k ended r = (remove_close_callback k (popped k r), [])
  collected k was_cancelled r = (restore k (popped k r), [])
  collected k (fails e) r =
      if is_cancelled e
      then (remove_close_callback k (popped k r), [])
      else (restore k (popped k r), e ∷ [])

  unfoldable pub collect_each : List ℕ → Resources → Resources × List Exc
  unfolding remove_close_callback
  collect_each [] r = (r, [])
  collect_each (k ∷ ks) r =
      let (r', es) = collected k (status k) r in
      let (r'', fs) = collect_each ks r' in (r'', es ++ fs)

-- `close` from its first loop to the stop of the queue.
module _ (called : ℕ → Called) (withdraws : ℕ → Bool) (status : ℕ → TaskStatus) where
  unfoldable pub close_resources : Resources → Resources × Outcome (List Exc)
  unfolding start_each collect_each
  close_resources r =
      let told = record r { closed = true } in
      let (s, errors) = start_each called withdraws r.close_callbacks told in
      elim errors [
        | raise e ↦ (s, raise e)
        | return es ↦ let (t, fs) = collect_each status s.cleanup_tasks s in (t, return (es ++ fs))
      ]

pub record CloseResult : Type 0 where
  pub complete : Bool
  pub pending : List DeliveryDiagnostic
  pub pending_resources : ℕ

-- The result, with the diagnostics of what is pending in the queue, where these do not raise.
abbrev pub close_result : Bool → Option (List DeliveryDiagnostic) → ℕ → Outcome CloseResult
close_result complete none pending_resources = raise key_error
close_result complete (some pending) pending_resources =
    return
      (record { complete = complete; pending = pending; pending_resources = pending_resources })

-- The end of `close`, from whether the queue has stopped. The connections, which it then disconnects,
-- are no part of this state.
unfoldable pub finish_close :
    Bool → List Exc → Option (List DeliveryDiagnostic) → Resources → Resources × Outcome CloseResult
finish_close stopped errors pending r =
    let complete = stopped && is_empty r.cleanup_tasks && is_empty r.close_callbacks in
    let left = if complete then record r { is_closed = true } else r in
    if is_empty errors
    then (left, close_result complete pending (length r.close_callbacks))
    else (left, raise (exception_group (length errors)))
