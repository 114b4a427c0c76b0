-- ===== src/Lib.antt =====
-- agent_cdp: events, connections, scopes and their queues.
--
-- The package dispatches an event object to the receivers that are connected to a scope. Each
-- receiver gets one delivery record on the event. A direct receiver runs at once, a queued one
-- through the queue of its scope, which one consumer serves. Callers await the event, check it for
-- success, or aggregate the results of its receivers.
--
-- Each part stands in a module, by the paths of the repository:
--
--   Prelude            tests on numbers, lists and dicts that the parts share
--   Events/Values      Python values and exceptions; the outcome of a call that may raise
--   Events/Contracts   src/agent_cdp/events/contracts.py: validators, request contracts
--   Events/Delivery    src/agent_cdp/events/result.py: delivery records, their transitions
--   Events/Event       src/agent_cdp/events/base.py: the event's fields and each method that changes
--                      them (_preflight, _prepare_delivery, _mark_running, record_result, ...)
--   Events/Success     base.py: check_success
--   Events/Waiting     base.py: wait_for_results and its timeout report
--   Events/Aggregation src/agent_cdp/events/aggregation.py
--   Connection         src/agent_cdp/connection: modes and the checks before a connection is made
--   Scope/Matching     src/agent_cdp/scope/scope.py: stored connections, _get_matching_connections
--   Scope/Queue        src/agent_cdp/scope/event_loop.py: ScopeEventLoop
--   Scope/Emission     scope.py: emit, _dispatch_direct, _resolve_mode, _record_history
--   Scope/Linking      connection.py: connect and disconnect, on the two scopes of a connection;
--                      scope.py: connect, connect_all
--   Scope/Cancellation base.py: cancel_execution, on the queues of the scopes
--   Scope/Closing      scope.py: close callbacks and what close does with them; Shutdown: close as a
--                      whole, and start
--   Scope/Group        src/agent_cdp/scope/group.py: ScopeGroup
--   Watchdog           src/agent_cdp/_watchdog_registry.py: WatchdogBinding, WatchdogBase
--   Expect             src/agent_cdp/advanced/expect.py: EventWaiter
--   Bridge             src/agent_cdp/bridge.py: PausedTarget (Paused), CDPEventBridge (Routing)
--   EventLog           src/agent_cdp/advanced/event_log.py: EventLogWriter, on the text of its file
--   Samples            concrete events, scopes and queues
--
-- State is passed explicitly. An object that several parts share stands in a store: a queue holds
-- references to events. Strings (identifiers, names, classes) are natural numbers with their equality.
-- Times are natural numbers, and a step reads the clock once; a difference of times is cut off at
-- 0, which the code does with max(0, ...). A budget or a duration that a caller passes is an
-- integer, since the code tests it for being negative. Handlers, filters and validators are not
-- code of the package: what calling one does is a value that the model is given. What a callback of
-- a watchdog's binding does is a change of the connections, events and queues; that it changes the
-- bindings themselves, or the close callbacks of a scope, is left out.
--
-- A coroutine is the list of its steps between suspensions. A wait is run over the looks that it
-- takes at the event, one for each wake-up within its budget, so that it ends with that list and
-- needs no fuel; a queue is run over a list of steps of its consumer and of whoever calls it. The
-- wait of stop is such a list: it ends where the list ends, be it with the consumer's task or with
-- the timeout; that the queue is started again before it has stopped, which a closed scope refuses,
-- is left out. In flush a wait for a delivery counts as over once the delivery is done; that its task
-- may need one more turn of the event loop at the very time of the timeout is left out.
--
-- The scopes of a group are closed one after another, where close_all has them closed at the same
-- time: what the others do meanwhile is part of what each close is given. In the deliveries of a
-- program with several scopes, a scope stands by its reference.
--
-- Not modelled: log messages and their monitor task, the registries of event and watchdog classes,
-- which a third-party library keeps and the event log takes as a record, and the validation of
-- fields by pydantic.
pub mod Prelude
pub mod Events
pub mod Connection
pub mod Scope
pub mod Watchdog
pub mod Expect
pub mod EventLog
pub mod Bridge
pub mod Samples
