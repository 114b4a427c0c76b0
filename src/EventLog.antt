-- ===== src/EventLog.antt =====
-- src/agent_cdp/advanced/event_log.py: `EventLogWriter`. JSON, the classes and their registry are
-- third-party code, and a parameter of the model. A file is its text, where it is there.
pub mod Text
pub mod Writer
pub mod Lines
pub mod Written
pub mod Roundtrip
unfoldable pub use Text.*
unfoldable pub use Writer.*
