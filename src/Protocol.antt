-- ===== src/Protocol.antt =====
-- srt-protocol: the data types that the transport and its users share.
pub mod Config
pub mod Error
pub mod Reject
pub mod Stats
pub mod Packet
pub mod Codes
pub mod Values
pub mod StreamId
pub mod Fec
