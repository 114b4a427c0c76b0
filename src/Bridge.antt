-- ===== src/Bridge.antt =====
-- src/agent_cdp/bridge.py: `PausedTarget` and `CDPEventBridge`. The CDP client is third-party code:
-- what calling it does is a value that the model is given.
pub mod Paused
pub mod Routing
