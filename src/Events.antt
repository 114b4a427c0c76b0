-- ===== src/Events.antt =====
-- src/agent_cdp/events: values, contracts, delivery records, events, waiting and aggregation.
pub mod Values
pub mod Contracts
pub mod Delivery
pub mod Event
pub mod Success
pub mod Waiting
pub mod Aggregation
