-- ===== src/WebSocket.antt =====
-- The WebSocket echo server (2.1.4 websocket/server.c, server.h and reactor.c).
pub mod Frame
pub mod Conn
pub mod Handshake
pub mod Server
pub mod Reactor
mod Examples
