-- ===== src/Echo.antt =====
-- project1: the ping-pong client and server over TCP, `client.c`, `util.c` and `server.c`.
pub mod Sockets
pub mod Node
pub mod Client
pub mod PingPong
pub mod Server
mod Tests
