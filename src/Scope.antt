-- ===== src/Scope.antt =====
-- src/agent_cdp/scope: where a scope keeps its connections, its queue, emission, and linking.
pub mod Matching
pub mod Queue
pub mod Emission
pub mod Linking
pub mod Cancellation
pub mod Closing
pub mod Group
