-- ===== src/WsKyok.antt =====
-- souk_server/ws_kyok.py: the socket of an LLM provider. `Link` is `class SocketLLMProvider`,
-- `Hello` is the handshake's check, `Socket` the read loop, and `Session` what stands around it.
pub mod Link
pub mod Hello
pub mod Socket
pub mod Session
