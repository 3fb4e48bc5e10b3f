-- ===== src/Transfer.antt =====
-- project2: the reliable file transfer over UDP, `sendfile.c` and `recvfile.c`.
pub mod Util
pub mod Checksum
pub mod Crc
pub mod Queue
pub mod Packet
pub mod Receiver
pub mod Sender
pub mod Link
pub mod Channel
pub mod Handshake
mod Tests
