-- ===== src/Events/Event.antt =====
-- src/agent_cdp/events/base.py: the event object and the methods that change it.
mod State
mod Receivers
mod Results
pub mod Settlement
pub mod Preflight
pub mod Frame
pub mod Completion
unfoldable pub use State.*
unfoldable pub use Receivers.*
unfoldable pub use Results.*
