-- ===== src/Scope/Group.antt =====
-- src/agent_cdp/scope/group.py: `ScopeGroup`. The group maps scope identifiers to references of
-- scopes, in the order in which they were created.
pub mod Registry
pub mod Copies
use agent_cdp.Prelude.{
  ℕ, ◌+◌, Bool, true, false, not, Option, none, some, List, [], ◌∷◌, length, contains, Dict, lookup,
  insert, erase, has_key, keys, if◌then◌else◌, ◌==◌, ℤ, pos, negsuc,
}
use agent_cdp.Events.Values.{
  Exc, value_error, key_error, exception_group, is_cancelled, Outcome, return, raise, ◌>>=◌,
}
use agent_cdp.Events.Event.{Event, deepcopy}
use agent_cdp.Connection.{Connection, Shape}
use agent_cdp.Scope.Matching.{no_connections}
use agent_cdp.Scope.Queue.{System, new_loop}
use agent_cdp.Scope.Emission.{EventScope, World, Handled, put_scope, put_event, emit}
use agent_cdp.Scope.Linking.{connect_typed}
use agent_cdp.Scope.Closing.{Resources, Called, TaskStatus, CloseResult}
use agent_cdp.Scope.Closing.Shutdown.{Closing, start_scope, close}

-- `EventScope.__init__`
unfoldable pub new_scope :
    ℕ → (queue_maxsize max_history_size interval : ℤ) → Option ℤ → Outcome EventScope
unfolding new_loop
new_scope scope_id maxsize (ℤ.negsuc n) interval threshold = raise value_error
new_scope scope_id maxsize (ℤ.pos n) interval threshold =
    new_loop scope_id maxsize interval threshold >>= λ l. return (record {
      event_loop = l;
      matcher = no_connections;
      incoming = [];
      closed = false;
      event_history = [];
      max_history_size = n;
    })

abbrev pub no_resources : Resources
no_resources = record {
  closed = false;
  is_closed = false;
  close_callbacks = [];
  cleanup_tasks = [];
  asked = [];
}

-- The group, in a program with the resources of every scope.
pub record Group : Type 0 where
  pub world : World
  pub resources : ℕ → Resources
  pub scopes : Dict ℕ

-- The answer of `get_scope` on what the dict holds.
abbrev pub known : Option ℕ → Outcome ℕ
known none = raise key_error
known (some at) = return at

unfoldable pub get_scope : ℕ → Group → Outcome ℕ
get_scope scope_id g = known (lookup scope_id g.scopes)

-- `create_scope`, with the reference `at` of the new object.
unfoldable pub create_scope :
    (at scope_id : ℕ) (queue_maxsize max_history_size interval : ℤ)
    → Option ℤ
    → Group
    → Group × Outcome ℕ
unfolding new_scope start_scope
create_scope at scope_id maxsize history interval threshold g =
    let made = new_scope scope_id maxsize history interval threshold >>= λ scope.
    start_scope at (put_scope at scope g.world) in
    if has_key scope_id g.scopes then (g, raise key_error) else elim made [
      | raise e ↦ (g, raise e)
      | return w ↦ (
        record {
          world = w;
          resources = λ k. if k == at then no_resources else g.resources k;
          scopes = insert scope_id at g.scopes;
        },
        return at,
      )
    ]

-- What a `close` of a scope meets: its callbacks and their tasks, and what goes on meanwhile.
pub record Surroundings : Type 0 where
  pub called : ℕ → Called
  pub withdraws : ℕ → Bool
  pub status : ℕ → TaskStatus
  pub cleaned : World → World
  pub budget : ℕ
  pub others : System → System
  pub now : ℕ
  pub later : ℕ
  pub got_lock : Bool

module _ (surroundings : ℕ → Surroundings) (graceful : Bool) (timeout : ℤ) where
  unfoldable pub close_at : ℕ → Closing → Closing × Outcome CloseResult
  unfolding close
  close_at at s =
      let u = surroundings at in
      close u.called u.withdraws u.status u.cleaned u.now u.later at graceful u.budget u.others
        timeout u.got_lock s

  -- `finally: if scope.is_closed: self._scopes.pop(scope_id, None)`
  abbrev pub dropped : ℕ → ℕ → Closing → Group → Group
  dropped scope_id at s g = record {
    world = s.world;
    resources = λ k. if k == at then s.resources else g.resources k;
    scopes = if s.resources.is_closed then erase scope_id g.scopes else g.scopes;
  }

  abbrev pub close_found : ℕ → Option ℕ → Group → Group × Outcome CloseResult
  close_found scope_id none g = (g, raise key_error)
  close_found scope_id (some at) g =
      let (s, result) = close_at at (record { world = g.world; resources = g.resources at }) in
      (dropped scope_id at s g, result)

  unfoldable pub close_scope : ℕ → Group → Group × Outcome CloseResult
  unfolding close_at
  close_scope scope_id g = close_found scope_id (lookup scope_id g.scopes) g

  -- `asyncio.gather(..., return_exceptions=True)`, one scope after another.
  unfoldable pub gather : List ℕ → Group → Group × List (ℕ × Outcome CloseResult)
  unfolding close_scope
  gather [] g = (g, [])
  gather (scope_id ∷ ids) g =
      let (g', outcome) = close_scope scope_id g in
      let (g'', outcomes) = gather ids g' in (g'', (scope_id, outcome) ∷ outcomes)

  -- How many of the outcomes are exceptions, and how many cancellations.
  abbrev pub errors_in : List (ℕ × Outcome CloseResult) → ℕ
  errors_in [] = 0
  errors_in ((k, return result) ∷ outcomes) = errors_in outcomes
  errors_in ((k, raise e) ∷ outcomes) =
      let rest = errors_in outcomes in if is_cancelled e then rest else rest + 1

  abbrev pub results_in : List (ℕ × Outcome CloseResult) → Outcome (Dict CloseResult)
  results_in [] = return []
  results_in ((k, raise e) ∷ outcomes) = raise e
  results_in ((k, return result) ∷ outcomes) =
      results_in outcomes >>= λ results. return ((k, result) ∷ results)

  unfoldable pub close_all : Group → Group × Outcome (Dict CloseResult)
  unfolding gather
  close_all g =
      let (g', outcomes) = gather (keys g.scopes) g in
      let errors = errors_in outcomes in
      (g', if errors == 0 then results_in outcomes else raise (exception_group errors))

-- `exclude and scope_id in exclude`
abbrev pub is_excluded : Option (List ℕ) → ℕ → Bool
is_excluded none scope_id = false
is_excluded (some ids) scope_id = contains scope_id ids

-- The emission of a copy and, unless it raises, the rest of the loop.
abbrev pub with_copy : ℕ → World × Option Exc → World × Outcome (List ℕ) → World × Outcome (List ℕ)
with_copy copy (w, some x) rest = (w, raise x)
with_copy copy (w, none) rest = (rest.0, rest.1 >>= λ copies. return (copy ∷ copies))

-- The copies get the references from `next` on, which no object has yet.
module _ (handlers : ℕ → ℕ → World → World × Handled) (now later : ℕ) (mro : ℕ → List ℕ) where
  -- The copy for one scope, and its emission there.
  unfoldable pub emit_copy : (e at next : ℕ) → World → World × Option Exc
  unfolding deepcopy emit
  emit_copy e at next w =
      emit handlers now later at mro next (put_event next (deepcopy (w.events e)) w)

  unfoldable pub broadcast :
      (exclude : Option (List ℕ)) (e : ℕ) → Dict ℕ → (next : ℕ) → World → World × Outcome (List ℕ)
  unfolding emit_copy
  broadcast exclude e [] next w = (w, return [])
  broadcast exclude e ((scope_id, at) ∷ scopes) next w =
      let (w', error) = emit_copy e at next w in
      let (w'', rest) = broadcast exclude e scopes (next + 1) w' in
      let skipped = broadcast exclude e scopes next w in
      if is_excluded exclude scope_id then skipped else with_copy next (w', error) (w'', rest)

-- `connect_all_scopes`: `made` is the connection for a scope, with an identifier of its own.
module _ (is_event is_abstract is_registered : ℕ → Bool) (shape : Shape)
    (made : ℕ → Connection) where
  unfoldable pub connect_all_scopes : Dict ℕ → World → World × Outcome (List Connection)
  unfolding connect_typed
  connect_all_scopes [] w = (w, return [])
  connect_all_scopes ((scope_id, at) ∷ scopes) w =
      elim (connect_typed is_event is_abstract is_registered shape (made at) w) [
        | raise e ↦ (w, raise e)
        | return w' ↦
            let (w'', rest) = connect_all_scopes scopes w' in
            (w'', rest >>= λ connections. return (made at ∷ connections))
      ]
