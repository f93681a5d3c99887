-- ===== src/Protocol.antt =====
-- protocol/embedded_protocol.c: the CRC32-framed binary protocol.
pub mod Endian
pub mod Crc
pub mod Packet
mod Examples
pub mod Stream
pub mod Names
