-- ===== src/WsProvider.antt =====
-- souk_server/ws_provider.py: the socket of an agent provider. `Link` is `class SocketProvider`,
-- `Query` answers a query frame, `Hello`, `Registration` and `Verdict` read the inbound frames,
-- `Socket` is the read loop of the connection, and `Session` what stands around it, with the watcher.
pub mod Link
pub mod Query
pub mod Hello
pub mod Registration
pub mod Verdict
pub mod Socket
pub mod Session
