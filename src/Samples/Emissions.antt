-- ===== src/Samples/Emissions.antt =====
-- A program with one scope, whose handlers raise.
use agent_cdp.Prelude.{ℕ, ◌≤◌, refl, true, false, none, some, [], ◌∷◌, length, pos, arith}
use agent_cdp.Events.Values.{value_error}
use agent_cdp.Connection.{Connection}
use agent_cdp.Scope.Matching.{no_connections}
use agent_cdp.Scope.Linking.{disconnect}
use agent_cdp.Scope.Linking.Gone.{Gone, disconnect-Gone}
use agent_cdp.Scope.Emission.{EventScope, World, Handled, raised, record_history}
use agent_cdp.Scope.Emission.Policies.{record_history_bounded}
use agent_cdp.Scope.Matching.{add_connection, find}
use agent_cdp.Scope.Emission.{put_event, put_scope, emit}
use agent_cdp.Scope.Emission.Evolution.{Evolves-refl}
use agent_cdp.Scope.Emission.Looping.{AllDelivered}
use agent_cdp.Scope.Emission.Delivered.{emit-AllDelivered}
use agent_cdp.Prelude.{List}
use agent_cdp.Samples.{saver, logger, new_event, queued_event}
use agent_cdp.Samples.Scopes.{link, empty_loop, mro}

abbrev scope : EventScope
scope = record {
  event_loop = empty_loop;
  matcher = no_connections;
  incoming = [];
  closed = false;
  event_history = 3 ∷ 4 ∷ [];
  max_history_size = 2;
}

abbrev pub program : World
program = record {
  scopes = λ n. scope;
  events = λ n. queued_event;
  active = λ n. true;
  emit_depth = 0;
  current_event = none;
}

abbrev failing : ℕ → ℕ → World → World × Handled
failing cid e w = (w, raised value_error)

record_history_bounded_example : length (record_history 5 scope).event_history ≤ 2
record_history_bounded_example = record_history_bounded 5 scope (omega arith)

-- A direct receiver, then one that is served by the queue of another scope.
abbrev receivers : List Connection
receivers = link saver 5 (pos 2) ∷ record (link logger 5 (pos 1)) { target_scope = some 2 } ∷ []

abbrev connected_program : World
unfolding add_connection
connected_program = put_event 0 new_event (
    put_scope 1
      (record scope {
        matcher =
            add_connection (record (link logger 5 (pos 1)) { target_scope = some 2 })
              (add_connection (link saver 5 (pos 2)) no_connections);
      })
      program)

-- The direct receiver raises, so that the queued one is not reached.
emit-AllDelivered_example :
    AllDelivered 1 receivers ((emit failing 8 9 1 mro 0 connected_program).0.events 0)
unfolding emit add_connection find
emit-AllDelivered_example =
    emit-AllDelivered failing 8 9 1 mro 0 connected_program (λ cid e w. Evolves-refl w.events)
      receivers refl refl refl refl refl

-- The connection to the other scope.
disconnect-Gone_example :
    Gone
      (record (link logger 5 (pos 1)) { target_scope = some 2 })
      connected_program
      (disconnect (record (link logger 5 (pos 1)) { target_scope = some 2 }) connected_program)
unfolding add_connection
disconnect-Gone_example =
    disconnect-Gone (record (link logger 5 (pos 1)) { target_scope = some 2 }) connected_program
      refl (record { by_type = (refl, (refl, tt)); rest = tt; single = refl }) tt
