-- ===== src/Scope/Emission.antt =====
-- src/agent_cdp/scope/scope.py: `emit`. Scopes, like events, stand in a store, since a handler may
-- change any of them: calling the handler of a connection is a function from the state of the
-- program to that state afterwards and what the call did. The weak references of connections are
-- read as alive, so a scope that is the target of one is there.
pub mod Policies
pub mod Settling
pub mod Evolution
pub mod Prepared
pub mod Looping
pub mod Delivered
pub mod Apart
mod State
mod Dispatch
unfoldable pub use State.*
unfoldable pub use Dispatch.*
