-- ===== src/Protocol/Packet.antt =====
-- srt-protocol/src/received_packet.rs: a received message with its sender's timestamp.
use bilbycast_libsrt_rs.Shared.{ℕ, List, Option, none, some, ℤ, pos, eqb, if◌then◌else◌}

-- The payload, `data` in the source, by its bytes.
abbrev pub Bytes : Type 0
Bytes = List ℕ

pub record ReceivedPacket : Type 0 where
  pub payload : Bytes
  pub sender_timestamp_us : Option ℤ

unfoldable pub packet_from_bytes : Bytes → ReceivedPacket
packet_from_bytes payload = record { payload = payload; sender_timestamp_us = none }

unfoldable pub with_srctime : Bytes → ℤ → ReceivedPacket
with_srctime payload srctime_us = record {
  payload = payload;
  sender_timestamp_us = if eqb srctime_us (pos 0) then none else some srctime_us;
}

unfoldable pub into_bytes : ReceivedPacket → Bytes
into_bytes p = p.payload
