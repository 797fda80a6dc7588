-- ===== src/Bridge/Options/Effective.antt =====
-- What the configuration gives for each option, and what libsrt was given.
use bilbycast_libsrt_rs.Shared.{
  ℕ, ◌*◌, Bool, not, ◌&&◌, [], ◌∷◌, Option, none, some, pos, negsuc, eqb, is_nonneg, is_positive,
  ltb, ◌==◌, if◌then◌else◌, Text, is_empty, as_i32,
}
use bilbycast_libsrt_rs.Protocol.Config.{SrtConfig, key_bytes}
use bilbycast_libsrt_rs.Bridge.SockOpt.{
  SockOpt, OptValue, int32, int64, characters, srto_transtype, srto_rcvlatency, srto_peerlatency,
  srto_mss, srto_fc, srto_sndbuf, srto_rcvbuf, srto_peeridletimeo, srto_conntimeo, srto_payloadsize,
  srto_passphrase, srto_pbkeylen, srto_cryptomode, srto_enforcedencryption, srto_maxbw,
  srto_inputbw, srto_oheadbw, srto_maxrexmitbw, srto_streamid, srto_packetfilter, srto_iptos,
  srto_ipttl, srto_retransmitalgo, srto_snddropdelay, srto_lossmaxttl, srto_kmrefreshrate,
  srto_kmpreannounce, srto_tlpktdrop, srto_rendezvous, srto_groupconnect, srto_rcvsyn, srto_sndsyn,
  srto_rcvdata,
}
use bilbycast_libsrt_rs.Bridge.Libsrt.{SocketId, History, srt_setsockflag}
use bilbycast_libsrt_rs.Bridge.Options.{
  c_int_of, holds_nul, as_millis_i32, type_code, is_gcm, is_reduced,
}

abbrev pub index : SockOpt → ℕ
index srto_transtype = 0
index srto_rcvlatency = 1
index srto_peerlatency = 2
index srto_mss = 3
index srto_fc = 4
index srto_sndbuf = 5
index srto_rcvbuf = 6
index srto_peeridletimeo = 7
index srto_conntimeo = 8
index srto_payloadsize = 9
index srto_passphrase = 10
index srto_pbkeylen = 11
index srto_cryptomode = 12
index srto_enforcedencryption = 13
index srto_maxbw = 14
index srto_inputbw = 15
index srto_oheadbw = 16
index srto_maxrexmitbw = 17
index srto_streamid = 18
index srto_packetfilter = 19
index srto_iptos = 20
index srto_ipttl = 21
index srto_retransmitalgo = 22
index srto_snddropdelay = 23
index srto_lossmaxttl = 24
index srto_kmrefreshrate = 25
index srto_kmpreannounce = 26
index srto_tlpktdrop = 27
index srto_rendezvous = 28
index srto_groupconnect = 29
index srto_rcvsyn = 30
index srto_sndsyn = 31
index srto_rcvdata = 32

unfoldable pub same_opt : SockOpt → SockOpt → Bool
same_opt a b = index a == index b

abbrev pub given : Bool → OptValue → Option OptValue
given b v = if b then some v else none

abbrev pub given_text : Text → Option OptValue
given_text val = given (not (is_empty val) && not (holds_nul val)) (characters val)

-- What the configuration gives for each option; where it gives none, libsrt's own value stays.
unfoldable pub chosen : SrtConfig → SockOpt → Option OptValue
chosen c srto_transtype = some (int32 (type_code c.trans_type))
chosen c srto_rcvlatency = given (ltb 0 c.recv_latency) (int32 (as_i32 c.recv_latency))
chosen c srto_peerlatency = given (ltb 0 c.peer_latency) (int32 (as_i32 c.peer_latency))
chosen c srto_mss = given (not (c.mss == 1500)) (int32 (as_i32 c.mss))
chosen c srto_fc = given (not (c.flight_flag_size == 25600)) (int32 (as_i32 c.flight_flag_size))
chosen c srto_sndbuf =
    given (not (c.send_buffer_size == 8192 * 1316)) (int32 (as_i32 c.send_buffer_size))
chosen c srto_rcvbuf =
    given (not (c.recv_buffer_size == 8192 * 1316)) (int32 (as_i32 c.recv_buffer_size))
chosen c srto_peeridletimeo =
    given (is_positive (as_millis_i32 c.peer_idle_timeout))
      (int32 (as_millis_i32 c.peer_idle_timeout))
chosen c srto_conntimeo =
    given (is_positive (as_millis_i32 c.connect_timeout)) (int32 (as_millis_i32 c.connect_timeout))
chosen c srto_payloadsize = given (ltb 0 c.payload_size) (int32 (as_i32 c.payload_size))
chosen c srto_passphrase = given_text c.passphrase
chosen c srto_pbkeylen = given (not (is_empty c.passphrase)) (int32 (pos (key_bytes c.key_size)))
chosen c srto_cryptomode =
    given (not (is_empty c.passphrase) && is_gcm c.crypto_mode) (int32 (pos 2))
chosen c srto_enforcedencryption = some (int32 (c_int_of c.enforced_encryption))
chosen c srto_maxbw = given (is_nonneg c.max_bw) (int64 c.max_bw)
chosen c srto_inputbw = given (is_positive c.input_bw) (int64 c.input_bw)
chosen c srto_oheadbw = given (not (eqb c.overhead_bw (pos 25))) (int32 c.overhead_bw)
chosen c srto_maxrexmitbw = given (not (eqb c.max_rexmit_bw (negsuc 0))) (int64 c.max_rexmit_bw)
chosen c srto_streamid = given_text c.stream_id
chosen c srto_packetfilter = given_text c.packet_filter
chosen c srto_iptos = given (not (eqb c.ip_tos (pos 0))) (int32 c.ip_tos)
chosen c srto_ipttl = given (not (eqb c.ip_ttl (pos 64))) (int32 c.ip_ttl)
chosen c srto_retransmitalgo = given (is_reduced c.retransmit_algo) (int32 (pos 1))
chosen c srto_snddropdelay =
    given (not (eqb c.send_drop_delay (negsuc 0))) (int32 c.send_drop_delay)
chosen c srto_lossmaxttl = given (is_positive c.loss_max_ttl) (int32 c.loss_max_ttl)
chosen c srto_kmrefreshrate =
    given (not (c.km_refresh_rate == 0x1000000)) (int32 (as_i32 c.km_refresh_rate))
chosen c srto_kmpreannounce =
    given (not (c.km_pre_announce == 0x1000)) (int32 (as_i32 c.km_pre_announce))
chosen c srto_tlpktdrop = some (int32 (c_int_of c.tlpkt_drop))
chosen c srto_rendezvous = given c.rendezvous (int32 (pos 1))
chosen c srto_groupconnect = given c.group_connect (int32 (pos 1))
chosen c srto_rcvsyn = none
chosen c srto_sndsyn = none
chosen c srto_rcvdata = none

abbrev pub or_else : Option OptValue → Option OptValue → Option OptValue
or_else none before = before
or_else (some v) before = some v

-- The last value that libsrt was given for one option of a socket, since the last choice of the socket's
-- transmission type; for the type itself, the choice.
unfoldable pub given_since_type : SocketId → SockOpt → History → Option OptValue
given_since_type id o [] = none
given_since_type id o (srt_setsockflag k p v ∷ h) =
    let before = given_since_type id o h in
    if eqb k id
    then if same_opt p o then some v else if same_opt p srto_transtype then none else before
    else before
given_since_type id o (c ∷ h) = given_since_type id o h
