-- ===== src/Scope/Queue.antt =====
-- src/agent_cdp/scope/event_loop.py: the queue of a scope and its one consumer. A `_Delivery` is
-- done when it has left `pending`. The consumer's state between its suspensions is `active`; the
-- child task that runs a handler is there while `active` is. `clock` is read once in a step.
pub mod Lists
pub mod Verdicts
pub mod Runs
pub mod Stopped
pub mod Halting
pub mod Halted
pub mod Flushed
pub mod Books
pub mod Stopping
pub mod Balance
pub mod Admitted
pub mod Admitting
pub mod Cancelled
pub mod Cancelling
pub mod Changes
pub mod Taking
pub mod Ending
pub mod Growth
pub mod Leaving
pub mod Tame
pub mod Starting
pub mod Invariant
pub mod Records
mod State
mod Admission
mod Execution
mod Lifecycle
mod Reports
mod Flush
unfoldable pub use State.*
unfoldable pub use Admission.*
unfoldable pub use Execution.*
unfoldable pub use Lifecycle.*
unfoldable pub use Reports.*
unfoldable pub use Flush.*
