-- ===== src/Scope/Linking.antt =====
-- src/agent_cdp/connection/connection.py: `connect` and `Connection.disconnect`, with what they do
-- to the two scopes. `shape` is what `inspect` says of the handler.
pub mod Disconnected
pub mod Stored
pub mod Gone
use agent_cdp.Prelude.{
  ℕ, Bool, true, false, not, ◌||◌, Option, none, some, List, [], ◌∷◌, ◌++◌, ◌==◌, if◌then◌else◌,
}
use agent_cdp.Events.Values.{type_error, runtime_error, Outcome, return, raise, ◌>>=◌}
use agent_cdp.Connection.{Connection, Shape, effective_mode, validate_handler_mode, check_connect}
use agent_cdp.Scope.Matching.{holds, remove, add_connection, add_catch_all, remove_connection}
use agent_cdp.Scope.Emission.{EventScope, World, put_scope}

-- `_add_connection` of the source.
abbrev add_to_source : Connection → World → World
add_to_source c w =
    put_scope c.source_scope
      (record (w.scopes c.source_scope) {
        matcher = add_connection c (w.scopes c.source_scope).matcher;
      })
      w

-- `_add_incoming` of the target.
abbrev add_to_target : Connection → Option ℕ → World → World
add_to_target c none w = w
add_to_target c (some t) w =
    put_scope t (record (w.scopes t) { incoming = (w.scopes t).incoming ++ c ∷ [] }) w

abbrev set_active : ℕ → Bool → World → World
set_active id flag w = record w { active = λ k. if k == id then flag else w.active k }

unfoldable pub connect : (is_event : ℕ → Bool) → Shape → Connection → World → Outcome World
unfolding check_connect validate_handler_mode effective_mode add_connection
connect is_event shape c w =
    check_connect is_event (λ s. (w.scopes s).closed) c.event_type c.source_scope c.target_scope
    >>= λ _.
        validate_handler_mode shape (effective_mode c.mode c.source_scope c.target_scope) >>= λ _.
        return (add_to_target c c.target_scope (add_to_source c (set_active c.id true w)))

-- `_remove_connection` of the source.
abbrev remove_from_source : Connection → World → World
remove_from_source c w =
    put_scope c.source_scope
      (record (w.scopes c.source_scope) {
        matcher = remove_connection c (w.scopes c.source_scope).matcher;
      })
      w

-- `_remove_incoming` of the target.
abbrev remove_incoming : Connection → List Connection → List Connection
remove_incoming c cs = if holds c.id cs then remove c.id cs else cs

abbrev remove_from_target : Connection → Option ℕ → World → World
remove_from_target c none w = w
remove_from_target c (some t) w =
    put_scope t (record (w.scopes t) { incoming = remove_incoming c (w.scopes t).incoming }) w

unfoldable pub disconnect : Connection → World → World
unfolding remove_connection
disconnect c w =
    if w.active c.id
    then remove_from_target c c.target_scope (remove_from_source c (set_active c.id false w))
    else w

-- `_validate_event_type`: what the registry says of a class is a parameter.
unfoldable pub validate_event_type :
    (is_event is_abstract is_registered : ℕ → Bool) → ℕ → Outcome (Unit {0})
validate_event_type is_event is_abstract is_registered event_type =
    if event_type == 0
    then raise type_error
    else if not (is_event event_type)
    then raise type_error
    else if is_abstract event_type || is_registered event_type
    then return tt
    else raise type_error

-- `EventScope.connect`
unfoldable pub connect_typed :
    (is_event is_abstract is_registered : ℕ → Bool) → Shape → Connection → World → Outcome World
unfolding validate_event_type connect
connect_typed is_event is_abstract is_registered shape c w =
    validate_event_type is_event is_abstract is_registered c.event_type >>= λ _.
    connect is_event shape c w

abbrev is_closed_target : Option ℕ → World → Bool
is_closed_target none w = false
is_closed_target (some t) w = (w.scopes t).closed

-- The source's part of `connect_all`.
abbrev add_everywhere : Connection → World → World
add_everywhere c w =
    put_scope c.source_scope
      (record (w.scopes c.source_scope) {
        matcher = add_catch_all c (w.scopes c.source_scope).matcher;
      })
      w

-- `connect_all`. Its connection is for class 0, `BaseEvent`.
unfoldable pub connect_all : Shape → Connection → World → Outcome World
unfolding validate_handler_mode effective_mode add_catch_all
connect_all shape c w =
    if (w.scopes c.source_scope).closed
    then raise runtime_error
    else if is_closed_target c.target_scope w
    then raise runtime_error
    else (validate_handler_mode shape (effective_mode c.mode c.source_scope c.target_scope) >>= λ _.
        return (add_to_target c c.target_scope (add_everywhere c (set_active c.id true w))))
