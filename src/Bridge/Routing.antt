-- ===== src/Bridge/Routing.antt =====
-- bridge.py: `CDPEventBridge`. Part of the state is what the client and the scope hold of a bridge:
-- the callbacks that the client calls, by their numbers, and `close` among the scope's close
-- callbacks. The client's `on_event` and `off_event` either do what their names say or raise.
pub mod Tracking
pub mod Closing
pub mod Hits
pub mod Removals
pub mod Tracked
use agent_cdp.Prelude.{
  ℕ, ◌+◌, Bool, true, false, not, ◌&&◌, ◌||◌, Option, none, some, List, [], ◌∷◌, ◌++◌, map, length,
  is_empty, select, if◌then◌else◌, ◌==◌, Dict, lookup, insert, has_key,
}
use agent_cdp.Events.Values.{
  Exc, runtime_error, key_error, exception_group, is_cancelled, Outcome, return, raise, ◌>>=◌,
}

-- `_BridgeRegistration`. The callback stands by its number.
pub record Registration : Type 0 where
  pub method : ℕ
  pub callback : ℕ
  pub hits : ℕ

pub record Bridge : Type 0 where
  pub session_id : Option ℕ
  pub registrations : List Registration
  pub hit_counts : Dict ℕ
  pub closed : Bool
  pub next_callback : ℕ
  pub listening : List ℕ
  pub in_scope : Bool

-- The constructor.
unfoldable pub new_bridge : Option ℕ → Bridge
new_bridge session_id = record {
  session_id = session_id;
  registrations = [];
  hit_counts = [];
  closed = false;
  next_callback = 0;
  listening = [];
  in_scope = true;
}

-- `d.setdefault(k, 0)`
abbrev pub set_default : ℕ → Dict ℕ → Dict ℕ
set_default k d = if has_key k d then d else insert k 0 d

-- `bridge`, with what `on_event` does.
unfoldable pub bridge : ℕ → Outcome (Unit {0}) → Bridge → Bridge × Outcome (Unit {0})
bridge method on_event b =
    let k = b.next_callback in
    let counted = record b {
      hit_counts = set_default method b.hit_counts;
      next_callback = k + 1;
    } in
    let r : Registration = record { method = method; callback = k; hits = 0 } in
    let added = record counted {
      registrations = b.registrations ++ r ∷ [];
      listening = b.listening ++ k ∷ [];
    } in
    if b.closed
    then (b, raise runtime_error)
    else elim on_event [ raise e ↦ (counted, raise e) | return _ ↦ (added, return tt) ]

-- `registration.hits += 1`
abbrev pub hit : ℕ → Registration → Registration
hit k r = if r.callback == k then record r { hits = r.hits + 1 } else r

abbrev pub add_hit : ℕ → Option ℕ → Dict ℕ → Outcome (Dict ℕ)
add_hit method none d = raise key_error
add_hit method (some n) d = return (insert method (n + 1) d)

-- `self._session_id is not None and session_id != self._session_id`
abbrev pub is_foreign : Option ℕ → Option ℕ → Bool
is_foreign none route = false
is_foreign (some s) none = true
is_foreign (some s) (some r) = not (r == s)

-- An event factory, of the params alone or of the params and the route session. It makes an event in
-- the state of the program, or raises.
pub data Factory (W : Type 0) : Type 0 where
  of_params : (ℕ → W → W × Outcome ℕ) → Factory W
  with_session : (ℕ → Option ℕ → W → W × Outcome ℕ) → Factory W

abbrev pub build : {W : Type 0} → Factory W → ℕ → Option ℕ → W → W × Outcome ℕ
build (Factory.of_params f) params route w = f params w
build (Factory.with_session f) params route w = f params route w

-- The scope of the bridge: whether it is closed, and its `emit`.
module _ {W : Type 0} (scope_closed : W → Bool) (emit : ℕ → W → W × Option Exc) where
  -- An error of the factory or of the delivery is logged.
  abbrev pub deliver : W × Outcome ℕ → W
  deliver (w, raise e) = w
  deliver (w, return event) = (emit event w).0

  -- `_callback`, of the method and the callback's number.
  unfoldable pub callback :
      (method k : ℕ)
      → Factory W
      → (params : ℕ) → (route : Option ℕ) → Bridge × W
      → Bridge × W × Outcome (Unit {0})
  callback method k factory params route (b, w) =
      let registrations = map (hit k) b.registrations in
      let delivered = deliver (build factory params route w) in
      if b.closed || scope_closed w || is_foreign b.session_id route
      then (b, w, return tt)
      else elim (add_hit method (lookup method b.hit_counts) b.hit_counts) [
        | raise e ↦ (record b { registrations = registrations }, w, raise e)
        | return counts ↦
            (record b { registrations = registrations; hit_counts = counts }, delivered, return tt)
      ]

-- The client no longer calls a callback.
abbrev pub forget : ℕ → List ℕ → List ℕ
forget k js = select (λ j. not (j == k)) js

abbrev pub keep_registered :
    Registration → Exc → List Registration × List Exc → List Registration × List Exc
keep_registered r e (rs, es) = (r ∷ rs, e ∷ es)

-- The loop of `close`, from what `off_event` does for each callback. An `Exception` keeps the
-- registration for a retry.
unfoldable pub unregister :
    (ℕ → Outcome (Unit {0}))
    → List Registration
    → List ℕ
    → List ℕ × Outcome (List Registration × List Exc)
unregister off_event [] listening = (listening, return ([], []))
unregister off_event (r ∷ rs) listening = elim (off_event r.callback) [
  | return _ ↦ unregister off_event rs (forget r.callback listening)
  | raise e ↦
      let rest = unregister off_event rs listening in
      if is_cancelled e
      then (listening, raise e)
      else (rest.0, rest.1 >>= λ left. return (keep_registered r e left))
]

abbrev pub group_error : List Exc → Outcome (Unit {0})
group_error [] = return tt
group_error (e ∷ es) = raise (exception_group (length (e ∷ es)))

-- What follows the loop of `close`.
abbrev pub after_loop :
    List ℕ → Outcome (List Registration × List Exc) → Bridge → Bridge × Outcome (Unit {0})
after_loop listening (raise e) b = (record b { listening = listening }, raise e)
after_loop listening (return (remaining, errors)) b = (
  record b {
    listening = listening;
    registrations = remaining;
    in_scope = b.in_scope && not (is_empty remaining);
  },
  group_error errors,
)

unfoldable pub close : (ℕ → Outcome (Unit {0})) → Bridge → Bridge × Outcome (Unit {0})
unfolding unregister
close off_event b =
    let (listening, left) = unregister off_event b.registrations b.listening in
    if b.closed && is_empty b.registrations
    then (b, return tt)
    else after_loop listening left (record b { closed = true })
