-- ===== src/KyokBridge.antt =====
-- souk-client-sdk/souk_client_sdk/kyok_bridge.py: the caller's LLM provider. `Handshake`
-- is the opening of its link, and `Completion` answers one completion.
pub mod Completion
pub mod Handshake
pub mod Connection
