-- ===== src/Peer.antt =====
-- 2.2.1_tcp_p2p.c: the peer-to-peer chat. `Outbuf` is the send buffer, `Chat` the second phase of main
-- and `Connect` the first.
pub mod Outbuf
pub mod Chat
pub mod Connect
mod Examples
