-- ===== src/Net.antt =====
-- component/net/net.go: framing of messages on a stream, and the state of a connection.
pub mod Framing
pub mod Conn
pub mod Sending
pub mod Client
pub mod Server
mod Examples
