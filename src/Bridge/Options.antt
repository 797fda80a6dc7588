-- ===== src/Bridge/Options.antt =====
-- srt-transport/src/epoll_bridge.rs: the setting of socket options (`apply_config` and the setters).
pub mod Effective
pub mod Assigning
pub mod Assigned
use bilbycast_libsrt_rs.Shared.{
  ℕ, ◌*◌, ◌/◌, ◌%◌, Bool, true, false, not, ◌||◌, List, [], ◌∷◌, Option, none, some, ℤ, pos, negsuc,
  eqb, is_nonneg, is_positive, ltb, ◌==◌, any, if◌then◌else◌, Text, is_empty, as_i32,
}
use bilbycast_libsrt_rs.Protocol.Config.{
  SrtConfig, TransType, live, file, CryptoModeConfig, aes_ctr, aes_gcm, key_bytes, RetransmitAlgo,
  default, reduced,
}
use bilbycast_libsrt_rs.Bridge.SockOpt.{
  SockOpt, int32, int64, characters, srto_transtype, srto_rcvlatency, srto_peerlatency, srto_mss,
  srto_fc, srto_sndbuf, srto_rcvbuf, srto_peeridletimeo, srto_conntimeo, srto_payloadsize,
  srto_passphrase, srto_pbkeylen, srto_cryptomode, srto_enforcedencryption, srto_maxbw,
  srto_inputbw, srto_oheadbw, srto_maxrexmitbw, srto_streamid, srto_packetfilter, srto_iptos,
  srto_ipttl, srto_retransmitalgo, srto_snddropdelay, srto_lossmaxttl, srto_kmrefreshrate,
  srto_kmpreannounce, srto_tlpktdrop, srto_rendezvous, srto_groupconnect,
}
use bilbycast_libsrt_rs.Bridge.Libsrt.{SocketId, Io, ◌>>=◌, ◌>>◌, pure, call, srt_setsockflag}

unfoldable pub set_i32_opt : SocketId → SockOpt → ℤ → Io (Unit {0})
set_i32_opt sock opt val = call (srt_setsockflag sock opt (int32 val))

unfoldable pub set_i64_opt : SocketId → SockOpt → ℤ → Io (Unit {0})
set_i64_opt sock opt val = call (srt_setsockflag sock opt (int64 val))

abbrev pub c_int_of : Bool → ℤ
c_int_of true = pos 1
c_int_of false = pos 0

unfoldable pub set_bool_opt : SocketId → SockOpt → Bool → Io (Unit {0})
set_bool_opt sock opt val = call (srt_setsockflag sock opt (int32 (c_int_of val)))

-- `CString::new` refuses a text that holds a NUL.
abbrev pub holds_nul : Text → Bool
holds_nul val = any (λ c. c == 0) val

unfoldable pub set_str_opt : SocketId → SockOpt → Text → Io (Unit {0})
set_str_opt sock opt val =
    if holds_nul val then pure tt else call (srt_setsockflag sock opt (characters val))

-- A statement `if test { ... }`.
abbrev pub when : Bool → Io (Unit {0}) → Io (Unit {0})
when true m = m
when false m = pure tt

-- `duration.as_millis() as i32`
abbrev pub as_millis_i32 : ℕ → ℤ
as_millis_i32 d = as_i32 (d / 1000000)

-- `SRTT_LIVE` and `SRTT_FILE`
abbrev pub type_code : TransType → ℤ
type_code TransType.live = pos 0
type_code TransType.file = pos 1

abbrev pub is_gcm : CryptoModeConfig → Bool
is_gcm CryptoModeConfig.aes_ctr = false
is_gcm CryptoModeConfig.aes_gcm = true

abbrev pub is_reduced : RetransmitAlgo → Bool
is_reduced RetransmitAlgo.default = false
is_reduced RetransmitAlgo.reduced = true

-- `// Encryption`
unfoldable pub apply_encryption : SocketId → SrtConfig → Io (Unit {0})
apply_encryption sock config = do
  set_str_opt sock srto_passphrase config.passphrase
  set_i32_opt sock srto_pbkeylen (pos (key_bytes config.key_size))
  when (is_gcm config.crypto_mode) (set_i32_opt sock srto_cryptomode (pos 2))

unfoldable pub apply_config : SocketId → SrtConfig → Io (Unit {0})
apply_config sock config = do
  set_i32_opt sock srto_transtype (type_code config.trans_type)
  when (ltb 0 config.recv_latency) (set_i32_opt sock srto_rcvlatency (as_i32 config.recv_latency))
  when (ltb 0 config.peer_latency) (set_i32_opt sock srto_peerlatency (as_i32 config.peer_latency))
  when (not (config.mss == 1500)) (set_i32_opt sock srto_mss (as_i32 config.mss))
  when (not (config.flight_flag_size == 25600))
      (set_i32_opt sock srto_fc (as_i32 config.flight_flag_size))
  when (not (config.send_buffer_size == 8192 * 1316))
      (set_i32_opt sock srto_sndbuf (as_i32 config.send_buffer_size))
  when (not (config.recv_buffer_size == 8192 * 1316))
      (set_i32_opt sock srto_rcvbuf (as_i32 config.recv_buffer_size))
  when (is_positive (as_millis_i32 config.peer_idle_timeout))
      (set_i32_opt sock srto_peeridletimeo (as_millis_i32 config.peer_idle_timeout))
  when (is_positive (as_millis_i32 config.connect_timeout))
      (set_i32_opt sock srto_conntimeo (as_millis_i32 config.connect_timeout))
  when (ltb 0 config.payload_size) (set_i32_opt sock srto_payloadsize (as_i32 config.payload_size))
  when (not (is_empty config.passphrase)) (apply_encryption sock config)
  set_bool_opt sock srto_enforcedencryption config.enforced_encryption
  when (is_nonneg config.max_bw) (set_i64_opt sock srto_maxbw config.max_bw)
  when (is_positive config.input_bw) (set_i64_opt sock srto_inputbw config.input_bw)
  when (not (eqb config.overhead_bw (pos 25))) (set_i32_opt sock srto_oheadbw config.overhead_bw)
  when (not (eqb config.max_rexmit_bw (negsuc 0)))
      (set_i64_opt sock srto_maxrexmitbw config.max_rexmit_bw)
  when (not (is_empty config.stream_id)) (set_str_opt sock srto_streamid config.stream_id)
  when (not (is_empty config.packet_filter))
      (set_str_opt sock srto_packetfilter config.packet_filter)
  when (not (eqb config.ip_tos (pos 0))) (set_i32_opt sock srto_iptos config.ip_tos)
  when (not (eqb config.ip_ttl (pos 64))) (set_i32_opt sock srto_ipttl config.ip_ttl)
  when (is_reduced config.retransmit_algo) (set_i32_opt sock srto_retransmitalgo (pos 1))
  when (not (eqb config.send_drop_delay (negsuc 0)))
      (set_i32_opt sock srto_snddropdelay config.send_drop_delay)
  when (is_positive config.loss_max_ttl) (set_i32_opt sock srto_lossmaxttl config.loss_max_ttl)
  when (not (config.km_refresh_rate == 0x1000000))
      (set_i32_opt sock srto_kmrefreshrate (as_i32 config.km_refresh_rate))
  when (not (config.km_pre_announce == 0x1000))
      (set_i32_opt sock srto_kmpreannounce (as_i32 config.km_pre_announce))
  set_bool_opt sock srto_tlpktdrop config.tlpkt_drop
  when config.rendezvous (set_bool_opt sock srto_rendezvous true)
  when config.group_connect (set_bool_opt sock srto_groupconnect true)
