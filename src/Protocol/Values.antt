-- ===== src/Protocol/Values.antt =====
-- Laws of the protocol's plain values: the configuration presets, the counters, a received packet.
use bilbycast_libsrt_rs.Shared.{
  ℕ, ◌≡◌, refl, ◌≢◌, ◌↔◌, inl, inr, List, [], ◌∷◌, some, ℤ, pos, eqb, eqb_iff, Bool-cases, arith,
}
use bilbycast_libsrt_rs.Protocol.Config.{
  SrtConfig, default_config, live_defaults, file_defaults, encryption_enabled,
}
use bilbycast_libsrt_rs.Protocol.Stats.{SrtStats, default_stats, reset_local}
use bilbycast_libsrt_rs.Protocol.Packet.{Bytes, packet_from_bytes, with_srctime, into_bytes}

-- Each preset overrides the other whole, leaves the encryption as it was, and the live one is what the
-- defaults already hold.
pub presets_override :
    (c : SrtConfig)
    → (live_defaults (file_defaults c) ≡ live_defaults c)
      × (file_defaults (live_defaults c) ≡ file_defaults c)
      × (encryption_enabled (live_defaults c) ≡ encryption_enabled c)
      × (encryption_enabled (file_defaults c) ≡ encryption_enabled c)
      × (live_defaults default_config ≡ default_config)
unfolding live_defaults file_defaults encryption_enabled default_config
presets_override c = (refl, refl, refl, refl, refl)

-- The counts since the connection began.
abbrev pub totals : {F : Type 0} → SrtStats F → List ℤ × List ℕ
totals s = (
  s.ms_timestamp ∷ s.pkt_sent_total ∷ s.pkt_recv_total ∷ s.pkt_snd_loss_total ∷ s.pkt_rcv_loss_total
      ∷ s.pkt_retrans_total ∷ s.pkt_rcv_retrans_total ∷ s.pkt_sent_ack_total ∷ s.pkt_recv_ack_total
      ∷ s.pkt_sent_nak_total ∷ s.pkt_recv_nak_total ∷ s.us_snd_duration_total ∷ s.pkt_snd_drop_total
      ∷ s.pkt_rcv_drop_total ∷ s.pkt_rcv_undecrypt_total ∷ s.pkt_sent_unique_total
      ∷ s.pkt_recv_unique_total ∷ s.pkt_snd_filter_extra_total ∷ s.pkt_rcv_filter_extra_total
      ∷ s.pkt_rcv_filter_supply_total ∷ s.pkt_rcv_filter_loss_total ∷ [],
  s.byte_sent_total ∷ s.byte_recv_total ∷ s.byte_rcv_loss_total ∷ s.byte_retrans_total
      ∷ s.byte_snd_drop_total ∷ s.byte_rcv_drop_total ∷ s.byte_rcv_undecrypt_total
      ∷ s.byte_sent_unique_total ∷ s.byte_recv_unique_total ∷ [],
)

-- The counts of the interval that have a total.
abbrev pub interval : {F : Type 0} → SrtStats F → List ℤ × List ℕ
interval s = (
  s.pkt_sent ∷ s.pkt_recv ∷ s.pkt_snd_loss ∷ s.pkt_rcv_loss ∷ s.pkt_retrans ∷ s.pkt_rcv_retrans
      ∷ s.pkt_sent_ack ∷ s.pkt_recv_ack ∷ s.pkt_sent_nak ∷ s.pkt_recv_nak ∷ s.us_snd_duration
      ∷ s.pkt_snd_drop ∷ s.pkt_rcv_drop ∷ s.pkt_rcv_undecrypt ∷ s.pkt_sent_unique
      ∷ s.pkt_recv_unique ∷ s.pkt_snd_filter_extra ∷ s.pkt_rcv_filter_extra
      ∷ s.pkt_rcv_filter_supply ∷ s.pkt_rcv_filter_loss ∷ [],
  s.byte_sent ∷ s.byte_recv ∷ s.byte_rcv_loss ∷ s.byte_retrans ∷ s.byte_snd_drop ∷ s.byte_rcv_drop
      ∷ s.byte_rcv_undecrypt ∷ s.byte_sent_unique ∷ s.byte_recv_unique ∷ [],
)

-- A reset takes every counter of the interval that has a total back to the default, keeps every total, and a second one
-- changes nothing more.
pub reset_local-clears :
    {F : Type 0} (zero : F) (s : SrtStats F)
    → (interval (reset_local zero s) ≡ interval (default_stats zero))
      × (totals (reset_local zero s) ≡ totals s)
      × (reset_local zero (reset_local zero s) ≡ reset_local zero s)
unfolding reset_local default_stats
reset_local-clears zero s = (refl, refl, refl)

-- A packet made from a payload gives the payload back, and it has the sender's timestamp exactly where
-- libsrt set one: libsrt's 0, for none, is never passed on as a time.
pub with_srctime-timestamp :
    (payload : Bytes) (srctime_us t : ℤ)
    → (into_bytes (with_srctime payload srctime_us) ≡ payload)
      × (((with_srctime payload srctime_us).sender_timestamp_us ≡ some t)
          ↔ ((srctime_us ≡ t) × (t ≢ pos 0)))
      × (with_srctime payload (pos 0) ≡ packet_from_bytes payload)
unfolding with_srctime into_bytes packet_from_bytes
with_srctime-timestamp payload srctime_us t = elim (Bool-cases (eqb srctime_us (pos 0))) [
  | inl unset ↦ (refl, ground (arith, eqb_iff srctime_us (pos 0)), refl)
  | inr set ↦ (refl, ground (arith, eqb_iff srctime_us (pos 0)), refl)
]
