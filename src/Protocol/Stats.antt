-- ===== src/Protocol/Stats.antt =====
-- srt-protocol/src/stats.rs: the counters of a connection. `F` stands for `f64`: the code stores floats
-- and the literal 0.0, and computes with none.
use bilbycast_libsrt_rs.Shared.{ℕ, ℤ, pos}

pub record SrtStats (F : Type 0) : Type 0 where
  pub ms_timestamp : ℤ
  pub pkt_sent_total : ℤ
  pub pkt_recv_total : ℤ
  pub pkt_snd_loss_total : ℤ
  pub pkt_rcv_loss_total : ℤ
  pub pkt_retrans_total : ℤ
  pub pkt_sent_ack_total : ℤ
  pub pkt_recv_ack_total : ℤ
  pub pkt_sent_nak_total : ℤ
  pub pkt_recv_nak_total : ℤ
  pub us_snd_duration_total : ℤ
  pub pkt_snd_drop_total : ℤ
  pub pkt_rcv_drop_total : ℤ
  pub pkt_rcv_undecrypt_total : ℤ
  pub byte_sent_total : ℕ
  pub byte_recv_total : ℕ
  pub byte_rcv_loss_total : ℕ
  pub byte_retrans_total : ℕ
  pub byte_snd_drop_total : ℕ
  pub byte_rcv_drop_total : ℕ
  pub byte_rcv_undecrypt_total : ℕ
  pub pkt_sent_unique_total : ℤ
  pub pkt_recv_unique_total : ℤ
  pub byte_sent_unique_total : ℕ
  pub byte_recv_unique_total : ℕ
  pub pkt_sent : ℤ
  pub pkt_recv : ℤ
  pub pkt_snd_loss : ℤ
  pub pkt_rcv_loss : ℤ
  pub pkt_retrans : ℤ
  pub pkt_rcv_retrans : ℤ
  pub pkt_rcv_retrans_total : ℤ
  pub pkt_sent_ack : ℤ
  pub pkt_recv_ack : ℤ
  pub pkt_sent_nak : ℤ
  pub pkt_recv_nak : ℤ
  pub mbps_send_rate : F
  pub mbps_recv_rate : F
  pub us_snd_duration : ℤ
  pub pkt_reorder_distance : ℤ
  pub pkt_rcv_avg_belated_time : F
  pub pkt_rcv_belated : ℤ
  pub pkt_snd_drop : ℤ
  pub pkt_rcv_drop : ℤ
  pub pkt_rcv_undecrypt : ℤ
  pub byte_sent : ℕ
  pub byte_recv : ℕ
  pub byte_rcv_loss : ℕ
  pub byte_retrans : ℕ
  pub byte_snd_drop : ℕ
  pub byte_rcv_drop : ℕ
  pub byte_rcv_undecrypt : ℕ
  pub pkt_sent_unique : ℤ
  pub pkt_recv_unique : ℤ
  pub byte_sent_unique : ℕ
  pub byte_recv_unique : ℕ
  pub us_pkt_snd_period : F
  pub pkt_flow_window : ℤ
  pub pkt_congestion_window : ℤ
  pub pkt_flight_size : ℤ
  pub ms_rtt : F
  pub mbps_bandwidth : F
  pub byte_avail_snd_buf : ℤ
  pub byte_avail_rcv_buf : ℤ
  pub mbps_max_bw : F
  pub byte_mss : ℤ
  pub pkt_snd_buf : ℤ
  pub byte_snd_buf : ℤ
  pub ms_snd_buf : ℤ
  pub ms_snd_tsbpd_delay : ℤ
  pub pkt_rcv_buf : ℤ
  pub byte_rcv_buf : ℤ
  pub ms_rcv_buf : ℤ
  pub ms_rcv_tsbpd_delay : ℤ
  pub pkt_snd_filter_extra_total : ℤ
  pub pkt_rcv_filter_extra_total : ℤ
  pub pkt_rcv_filter_supply_total : ℤ
  pub pkt_rcv_filter_loss_total : ℤ
  pub pkt_snd_filter_extra : ℤ
  pub pkt_rcv_filter_extra : ℤ
  pub pkt_rcv_filter_supply : ℤ
  pub pkt_rcv_filter_loss : ℤ
  pub pkt_reorder_tolerance : ℤ

-- `SrtStats::default()`: every field is zero.
unfoldable pub default_stats : {F : Type 0} → F → SrtStats F
default_stats zero = record {
  ms_timestamp = pos 0;
  pkt_sent_total = pos 0;
  pkt_recv_total = pos 0;
  pkt_snd_loss_total = pos 0;
  pkt_rcv_loss_total = pos 0;
  pkt_retrans_total = pos 0;
  pkt_sent_ack_total = pos 0;
  pkt_recv_ack_total = pos 0;
  pkt_sent_nak_total = pos 0;
  pkt_recv_nak_total = pos 0;
  us_snd_duration_total = pos 0;
  pkt_snd_drop_total = pos 0;
  pkt_rcv_drop_total = pos 0;
  pkt_rcv_undecrypt_total = pos 0;
  byte_sent_total = 0;
  byte_recv_total = 0;
  byte_rcv_loss_total = 0;
  byte_retrans_total = 0;
  byte_snd_drop_total = 0;
  byte_rcv_drop_total = 0;
  byte_rcv_undecrypt_total = 0;
  pkt_sent_unique_total = pos 0;
  pkt_recv_unique_total = pos 0;
  byte_sent_unique_total = 0;
  byte_recv_unique_total = 0;
  pkt_sent = pos 0;
  pkt_recv = pos 0;
  pkt_snd_loss = pos 0;
  pkt_rcv_loss = pos 0;
  pkt_retrans = pos 0;
  pkt_rcv_retrans = pos 0;
  pkt_rcv_retrans_total = pos 0;
  pkt_sent_ack = pos 0;
  pkt_recv_ack = pos 0;
  pkt_sent_nak = pos 0;
  pkt_recv_nak = pos 0;
  mbps_send_rate = zero;
  mbps_recv_rate = zero;
  us_snd_duration = pos 0;
  pkt_reorder_distance = pos 0;
  pkt_rcv_avg_belated_time = zero;
  pkt_rcv_belated = pos 0;
  pkt_snd_drop = pos 0;
  pkt_rcv_drop = pos 0;
  pkt_rcv_undecrypt = pos 0;
  byte_sent = 0;
  byte_recv = 0;
  byte_rcv_loss = 0;
  byte_retrans = 0;
  byte_snd_drop = 0;
  byte_rcv_drop = 0;
  byte_rcv_undecrypt = 0;
  pkt_sent_unique = pos 0;
  pkt_recv_unique = pos 0;
  byte_sent_unique = 0;
  byte_recv_unique = 0;
  us_pkt_snd_period = zero;
  pkt_flow_window = pos 0;
  pkt_congestion_window = pos 0;
  pkt_flight_size = pos 0;
  ms_rtt = zero;
  mbps_bandwidth = zero;
  byte_avail_snd_buf = pos 0;
  byte_avail_rcv_buf = pos 0;
  mbps_max_bw = zero;
  byte_mss = pos 0;
  pkt_snd_buf = pos 0;
  byte_snd_buf = pos 0;
  ms_snd_buf = pos 0;
  ms_snd_tsbpd_delay = pos 0;
  pkt_rcv_buf = pos 0;
  byte_rcv_buf = pos 0;
  ms_rcv_buf = pos 0;
  ms_rcv_tsbpd_delay = pos 0;
  pkt_snd_filter_extra_total = pos 0;
  pkt_rcv_filter_extra_total = pos 0;
  pkt_rcv_filter_supply_total = pos 0;
  pkt_rcv_filter_loss_total = pos 0;
  pkt_snd_filter_extra = pos 0;
  pkt_rcv_filter_extra = pos 0;
  pkt_rcv_filter_supply = pos 0;
  pkt_rcv_filter_loss = pos 0;
  pkt_reorder_tolerance = pos 0;
}

unfoldable pub reset_local : {F : Type 0} → F → SrtStats F → SrtStats F
reset_local zero s = record s {
  pkt_sent = pos 0;
  pkt_recv = pos 0;
  pkt_snd_loss = pos 0;
  pkt_rcv_loss = pos 0;
  pkt_retrans = pos 0;
  pkt_rcv_retrans = pos 0;
  pkt_sent_ack = pos 0;
  pkt_recv_ack = pos 0;
  pkt_sent_nak = pos 0;
  pkt_recv_nak = pos 0;
  mbps_send_rate = zero;
  mbps_recv_rate = zero;
  us_snd_duration = pos 0;
  pkt_reorder_distance = pos 0;
  pkt_rcv_avg_belated_time = zero;
  pkt_rcv_belated = pos 0;
  pkt_snd_drop = pos 0;
  pkt_rcv_drop = pos 0;
  pkt_rcv_undecrypt = pos 0;
  byte_sent = 0;
  byte_recv = 0;
  byte_rcv_loss = 0;
  byte_retrans = 0;
  byte_snd_drop = 0;
  byte_rcv_drop = 0;
  byte_rcv_undecrypt = 0;
  pkt_sent_unique = pos 0;
  pkt_recv_unique = pos 0;
  byte_sent_unique = 0;
  byte_recv_unique = 0;
  pkt_snd_filter_extra = pos 0;
  pkt_rcv_filter_extra = pos 0;
  pkt_rcv_filter_supply = pos 0;
  pkt_rcv_filter_loss = pos 0;
}
