-- ===== src/Bridge/StatsBridge.antt =====
-- srt-transport/src/stats_bridge.rs: libsrt's `CBytePerfMon` as `SrtStats`.
use bilbycast_libsrt_rs.Shared.{ℕ, ℤ, pos}
use bilbycast_libsrt_rs.Protocol.Stats.{SrtStats}

-- The fields of libsrt's struct that the code reads, with the types they are given to.
pub record PerfMon (F : Type 0) : Type 0 where
  pub ms_time_stamp : ℤ
  pub pkt_sent_total : ℤ
  pub pkt_recv_total : ℤ
  pub pkt_snd_loss_total : ℤ
  pub pkt_rcv_loss_total : ℤ
  pub pkt_retrans_total : ℤ
  pub pkt_sent_ack_total : ℤ
  pub pkt_recv_ack_total : ℤ
  pub pkt_sent_nak_total : ℤ
  pub pkt_recv_nak_total : ℤ
  pub us_snd_duration_total : ℤ
  pub pkt_snd_drop_total : ℤ
  pub pkt_rcv_drop_total : ℤ
  pub pkt_rcv_undecrypt_total : ℤ
  pub byte_sent_total : ℕ
  pub byte_recv_total : ℕ
  pub byte_rcv_loss_total : ℕ
  pub byte_retrans_total : ℕ
  pub byte_snd_drop_total : ℕ
  pub byte_rcv_drop_total : ℕ
  pub byte_rcv_undecrypt_total : ℕ
  pub pkt_sent_unique_total : ℤ
  pub pkt_recv_unique_total : ℤ
  pub byte_sent_unique_total : ℕ
  pub byte_recv_unique_total : ℕ
  pub pkt_sent : ℤ
  pub pkt_recv : ℤ
  pub pkt_snd_loss : ℤ
  pub pkt_rcv_loss : ℤ
  pub pkt_retrans : ℤ
  pub pkt_rcv_retrans : ℤ
  pub pkt_sent_ack : ℤ
  pub pkt_recv_ack : ℤ
  pub pkt_sent_nak : ℤ
  pub pkt_recv_nak : ℤ
  pub mbps_send_rate : F
  pub mbps_recv_rate : F
  pub us_snd_duration : ℤ
  pub pkt_reorder_distance : ℤ
  pub pkt_rcv_avg_belated_time : F
  pub pkt_rcv_belated : ℤ
  pub pkt_snd_drop : ℤ
  pub pkt_rcv_drop : ℤ
  pub pkt_rcv_undecrypt : ℤ
  pub byte_sent : ℕ
  pub byte_recv : ℕ
  pub byte_rcv_loss : ℕ
  pub byte_retrans : ℕ
  pub byte_snd_drop : ℕ
  pub byte_rcv_drop : ℕ
  pub byte_rcv_undecrypt : ℕ
  pub pkt_sent_unique : ℤ
  pub pkt_recv_unique : ℤ
  pub byte_sent_unique : ℕ
  pub byte_recv_unique : ℕ
  pub us_pkt_snd_period : F
  pub pkt_flow_window : ℤ
  pub pkt_congestion_window : ℤ
  pub pkt_flight_size : ℤ
  pub ms_rtt : F
  pub mbps_bandwidth : F
  pub byte_avail_snd_buf : ℤ
  pub byte_avail_rcv_buf : ℤ
  pub mbps_max_bw : F
  pub byte_mss : ℤ
  pub pkt_snd_buf : ℤ
  pub byte_snd_buf : ℤ
  pub ms_snd_buf : ℤ
  pub ms_snd_tsb_pd_delay : ℤ
  pub pkt_rcv_buf : ℤ
  pub byte_rcv_buf : ℤ
  pub ms_rcv_buf : ℤ
  pub ms_rcv_tsb_pd_delay : ℤ
  pub pkt_snd_filter_extra_total : ℤ
  pub pkt_rcv_filter_extra_total : ℤ
  pub pkt_rcv_filter_supply_total : ℤ
  pub pkt_rcv_filter_loss_total : ℤ
  pub pkt_snd_filter_extra : ℤ
  pub pkt_rcv_filter_extra : ℤ
  pub pkt_rcv_filter_supply : ℤ
  pub pkt_rcv_filter_loss : ℤ
  pub pkt_reorder_tolerance : ℤ

unfoldable pub convert_perfmon_to_stats : {F : Type 0} → PerfMon F → SrtStats F
convert_perfmon_to_stats perf = record {
  ms_timestamp = perf.ms_time_stamp;
  pkt_sent_total = perf.pkt_sent_total;
  pkt_recv_total = perf.pkt_recv_total;
  pkt_snd_loss_total = perf.pkt_snd_loss_total;
  pkt_rcv_loss_total = perf.pkt_rcv_loss_total;
  pkt_retrans_total = perf.pkt_retrans_total;
  pkt_sent_ack_total = perf.pkt_sent_ack_total;
  pkt_recv_ack_total = perf.pkt_recv_ack_total;
  pkt_sent_nak_total = perf.pkt_sent_nak_total;
  pkt_recv_nak_total = perf.pkt_recv_nak_total;
  us_snd_duration_total = perf.us_snd_duration_total;
  pkt_snd_drop_total = perf.pkt_snd_drop_total;
  pkt_rcv_drop_total = perf.pkt_rcv_drop_total;
  pkt_rcv_undecrypt_total = perf.pkt_rcv_undecrypt_total;
  byte_sent_total = perf.byte_sent_total;
  byte_recv_total = perf.byte_recv_total;
  byte_rcv_loss_total = perf.byte_rcv_loss_total;
  byte_retrans_total = perf.byte_retrans_total;
  byte_snd_drop_total = perf.byte_snd_drop_total;
  byte_rcv_drop_total = perf.byte_rcv_drop_total;
  byte_rcv_undecrypt_total = perf.byte_rcv_undecrypt_total;
  pkt_sent_unique_total = perf.pkt_sent_unique_total;
  pkt_recv_unique_total = perf.pkt_recv_unique_total;
  byte_sent_unique_total = perf.byte_sent_unique_total;
  byte_recv_unique_total = perf.byte_recv_unique_total;
  pkt_sent = perf.pkt_sent;
  pkt_recv = perf.pkt_recv;
  pkt_snd_loss = perf.pkt_snd_loss;
  pkt_rcv_loss = perf.pkt_rcv_loss;
  pkt_retrans = perf.pkt_retrans;
  pkt_rcv_retrans = perf.pkt_rcv_retrans;
  pkt_rcv_retrans_total = pos 0;
  pkt_sent_ack = perf.pkt_sent_ack;
  pkt_recv_ack = perf.pkt_recv_ack;
  pkt_sent_nak = perf.pkt_sent_nak;
  pkt_recv_nak = perf.pkt_recv_nak;
  mbps_send_rate = perf.mbps_send_rate;
  mbps_recv_rate = perf.mbps_recv_rate;
  us_snd_duration = perf.us_snd_duration;
  pkt_reorder_distance = perf.pkt_reorder_distance;
  pkt_rcv_avg_belated_time = perf.pkt_rcv_avg_belated_time;
  pkt_rcv_belated = perf.pkt_rcv_belated;
  pkt_snd_drop = perf.pkt_snd_drop;
  pkt_rcv_drop = perf.pkt_rcv_drop;
  pkt_rcv_undecrypt = perf.pkt_rcv_undecrypt;
  byte_sent = perf.byte_sent;
  byte_recv = perf.byte_recv;
  byte_rcv_loss = perf.byte_rcv_loss;
  byte_retrans = perf.byte_retrans;
  byte_snd_drop = perf.byte_snd_drop;
  byte_rcv_drop = perf.byte_rcv_drop;
  byte_rcv_undecrypt = perf.byte_rcv_undecrypt;
  pkt_sent_unique = perf.pkt_sent_unique;
  pkt_recv_unique = perf.pkt_recv_unique;
  byte_sent_unique = perf.byte_sent_unique;
  byte_recv_unique = perf.byte_recv_unique;
  us_pkt_snd_period = perf.us_pkt_snd_period;
  pkt_flow_window = perf.pkt_flow_window;
  pkt_congestion_window = perf.pkt_congestion_window;
  pkt_flight_size = perf.pkt_flight_size;
  ms_rtt = perf.ms_rtt;
  mbps_bandwidth = perf.mbps_bandwidth;
  byte_avail_snd_buf = perf.byte_avail_snd_buf;
  byte_avail_rcv_buf = perf.byte_avail_rcv_buf;
  mbps_max_bw = perf.mbps_max_bw;
  byte_mss = perf.byte_mss;
  pkt_snd_buf = perf.pkt_snd_buf;
  byte_snd_buf = perf.byte_snd_buf;
  ms_snd_buf = perf.ms_snd_buf;
  ms_snd_tsbpd_delay = perf.ms_snd_tsb_pd_delay;
  pkt_rcv_buf = perf.pkt_rcv_buf;
  byte_rcv_buf = perf.byte_rcv_buf;
  ms_rcv_buf = perf.ms_rcv_buf;
  ms_rcv_tsbpd_delay = perf.ms_rcv_tsb_pd_delay;
  pkt_snd_filter_extra_total = perf.pkt_snd_filter_extra_total;
  pkt_rcv_filter_extra_total = perf.pkt_rcv_filter_extra_total;
  pkt_rcv_filter_supply_total = perf.pkt_rcv_filter_supply_total;
  pkt_rcv_filter_loss_total = perf.pkt_rcv_filter_loss_total;
  pkt_snd_filter_extra = perf.pkt_snd_filter_extra;
  pkt_rcv_filter_extra = perf.pkt_rcv_filter_extra;
  pkt_rcv_filter_supply = perf.pkt_rcv_filter_supply;
  pkt_rcv_filter_loss = perf.pkt_rcv_filter_loss;
  pkt_reorder_tolerance = perf.pkt_reorder_tolerance;
}
