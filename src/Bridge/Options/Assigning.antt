-- ===== src/Bridge/Options/Assigning.antt =====
-- `apply_config` as a list of assignments, one for each option of the configuration.
use bilbycast_libsrt_rs.Shared.{
  ◌*◌, ◌≡◌, refl, Bool, true, false, not, List, [], ◌∷◌, Option, none, some, pos, negsuc, eqb,
  is_nonneg, is_positive, ltb, ◌==◌, Text, is_empty, as_i32, Bool-cases, inl, inr,
}
use bilbycast_libsrt_rs.Protocol.Config.{SrtConfig}
use bilbycast_libsrt_rs.Bridge.SockOpt.{
  SockOpt, OptValue, int32, int64, srto_transtype, srto_rcvlatency, srto_peerlatency, srto_mss,
  srto_fc, srto_sndbuf, srto_rcvbuf, srto_peeridletimeo, srto_conntimeo, srto_payloadsize,
  srto_passphrase, srto_pbkeylen, srto_cryptomode, srto_enforcedencryption, srto_maxbw,
  srto_inputbw, srto_oheadbw, srto_maxrexmitbw, srto_streamid, srto_packetfilter, srto_iptos,
  srto_ipttl, srto_retransmitalgo, srto_snddropdelay, srto_lossmaxttl, srto_kmrefreshrate,
  srto_kmpreannounce, srto_tlpktdrop, srto_rendezvous, srto_groupconnect,
}
use bilbycast_libsrt_rs.Bridge.Libsrt.{SocketId, Io, ◌>>◌, pure, call, srt_setsockflag}
use bilbycast_libsrt_rs.Bridge.Options.{
  set_i32_opt, set_i64_opt, set_bool_opt, set_str_opt, c_int_of, holds_nul, when, as_millis_i32,
  type_code, is_gcm, is_reduced, apply_encryption, apply_config,
}
use bilbycast_libsrt_rs.Bridge.Options.Effective.{given, given_text, chosen}

-- One option set to what the configuration gives for it, if it gives one.
abbrev pub assign : SocketId → SockOpt → Option OptValue → Io (Unit {0})
assign id o none = pure tt
assign id o (some v) = call (srt_setsockflag id o v)

abbrev pub assign_all : SrtConfig → SocketId → List SockOpt → Io (Unit {0})
assign_all c id [] = pure tt
assign_all c id (o ∷ os) = assign id o (chosen c o) >> assign_all c id os

step : {m m' k k' : Io (Unit {0})} → m ≡ m' → k ≡ k' → (m >> k) ≡ (m' >> k')
step e f = rw (e, f) refl

module _ (id : SocketId) (o : SockOpt) where
  when-given :
      (b : Bool) (v : OptValue) → when b (call (srt_setsockflag id o v)) ≡ assign id o (given b v)
  when-given true v = refl
  when-given false v = refl

  when-given_text :
      (val : Text) → when (not (is_empty val)) (set_str_opt id o val) ≡ assign id o (given_text val)
  unfolding set_str_opt
  when-given_text val = elim (Bool-cases (is_empty val)) [
    | inl empty ↦ rw (empty, set_str_opt) refl
    | inr some_text ↦ elim (Bool-cases (holds_nul val)) [
      | inl nul ↦ rw (some_text, nul, set_str_opt) refl
      | inr clean ↦ rw (some_text, clean, set_str_opt) refl
    ]
  ]

-- The options in the order of `apply_config`, after the transmission type.
abbrev pub order : List SockOpt
order =
    srto_rcvlatency ∷ srto_peerlatency ∷ srto_mss ∷ srto_fc ∷ srto_sndbuf ∷ srto_rcvbuf
    ∷ srto_peeridletimeo ∷ srto_conntimeo ∷ srto_payloadsize ∷ srto_passphrase ∷ srto_pbkeylen
    ∷ srto_cryptomode ∷ srto_enforcedencryption ∷ srto_maxbw ∷ srto_inputbw ∷ srto_oheadbw
    ∷ srto_maxrexmitbw ∷ srto_streamid ∷ srto_packetfilter ∷ srto_iptos ∷ srto_ipttl
    ∷ srto_retransmitalgo ∷ srto_snddropdelay ∷ srto_lossmaxttl ∷ srto_kmrefreshrate
    ∷ srto_kmpreannounce ∷ srto_tlpktdrop ∷ srto_rendezvous ∷ srto_groupconnect ∷ []

-- `apply_config` makes the assignments of `chosen` in order.
apply_encryption-assigns :
    (id : SocketId) (c : SrtConfig) (k : Io (Unit {0}))
    → (when (not (is_empty c.passphrase)) (apply_encryption id c) >> k) ≡ (
        assign id srto_passphrase (chosen c srto_passphrase)
        >> (assign id srto_pbkeylen (chosen c srto_pbkeylen)
            >> (assign id srto_cryptomode (chosen c srto_cryptomode) >> k)))
unfolding apply_encryption chosen set_i32_opt set_str_opt
apply_encryption-assigns id c k = elim (Bool-cases (is_empty c.passphrase)) [
  | inl empty ↦ rw (empty) refl
  | inr some_text ↦ elim (Bool-cases (holds_nul c.passphrase)) [
    | inl nul ↦ elim (Bool-cases (is_gcm c.crypto_mode)) [
      | inl gcm ↦ rw (some_text, nul, gcm) refl
      | inr ctr ↦ rw (some_text, nul, ctr) refl
    ]
    | inr clean ↦ elim (Bool-cases (is_gcm c.crypto_mode)) [
      | inl gcm ↦ rw (some_text, clean, gcm) refl
      | inr ctr ↦ rw (some_text, clean, ctr) refl
    ]
  ]
]

last : {m m' : Io (Unit {0})} → m ≡ m' → m ≡ (m' >> pure tt)
last e = rw e refl

step_encryption :
    (id : SocketId) (c : SrtConfig) (k k' : Io (Unit {0}))
    → k ≡ k'
    → (when (not (is_empty c.passphrase)) (apply_encryption id c) >> k) ≡ (
        assign id srto_passphrase (chosen c srto_passphrase)
        >> (assign id srto_pbkeylen (chosen c srto_pbkeylen)
            >> (assign id srto_cryptomode (chosen c srto_cryptomode) >> k')))
step_encryption id c k k' e = rw e (apply_encryption-assigns id c k')

pub apply_config-assigns :
    (id : SocketId) (c : SrtConfig)
    → apply_config id c
      ≡ (assign id srto_transtype (chosen c srto_transtype) >> assign_all c id order)
unfolding apply_config chosen set_i32_opt set_i64_opt set_bool_opt
apply_config-assigns id c =
    step (when-given id srto_transtype true (int32 (type_code c.trans_type))) (
      step (when-given id srto_rcvlatency (ltb 0 c.recv_latency) (int32 (as_i32 c.recv_latency))) (
        step (when-given id srto_peerlatency (ltb 0 c.peer_latency) (int32 (as_i32 c.peer_latency)))
          (step (when-given id srto_mss (not (c.mss == 1500)) (int32 (as_i32 c.mss))) (
            step
              (when-given id srto_fc (not (c.flight_flag_size == 25600))
                (int32 (as_i32 c.flight_flag_size)))
              (step
                (when-given id srto_sndbuf (not (c.send_buffer_size == 8192 * 1316))
                  (int32 (as_i32 c.send_buffer_size)))
                (step
                  (when-given id srto_rcvbuf (not (c.recv_buffer_size == 8192 * 1316))
                    (int32 (as_i32 c.recv_buffer_size)))
                  (step
                    (when-given id srto_peeridletimeo
                      (is_positive (as_millis_i32 c.peer_idle_timeout))
                      (int32 (as_millis_i32 c.peer_idle_timeout)))
                    (step
                      (when-given id srto_conntimeo (is_positive (as_millis_i32 c.connect_timeout))
                        (int32 (as_millis_i32 c.connect_timeout)))
                      (step
                        (when-given id srto_payloadsize (ltb 0 c.payload_size)
                          (int32 (as_i32 c.payload_size)))
                        (step_encryption id c _ _ (
                          step
                            (when-given id srto_enforcedencryption (true)
                              (int32 (c_int_of c.enforced_encryption)))
                            (step (when-given id srto_maxbw (is_nonneg c.max_bw) (int64 c.max_bw)) (
                              step
                                (when-given id srto_inputbw (is_positive c.input_bw)
                                  (int64 c.input_bw))
                                (step
                                  (when-given id srto_oheadbw (not (eqb c.overhead_bw (pos 25)))
                                    (int32 c.overhead_bw))
                                  (step
                                    (when-given id srto_maxrexmitbw
                                      (not (eqb c.max_rexmit_bw (negsuc 0)))
                                      (int64 c.max_rexmit_bw))
                                    (step (when-given_text id srto_streamid c.stream_id) (
                                      step (when-given_text id srto_packetfilter c.packet_filter) (
                                        step
                                          (when-given id srto_iptos (not (eqb c.ip_tos (pos 0)))
                                            (int32 c.ip_tos))
                                          (step
                                            (when-given id srto_ipttl (not (eqb c.ip_ttl (pos 64)))
                                              (int32 c.ip_ttl))
                                            (step
                                              (when-given id srto_retransmitalgo
                                                (is_reduced c.retransmit_algo) (int32 (pos 1)))
                                              (step
                                                (when-given id srto_snddropdelay
                                                  (not (eqb c.send_drop_delay (negsuc 0)))
                                                  (int32 c.send_drop_delay))
                                                (step
                                                  (when-given id srto_lossmaxttl
                                                    (is_positive c.loss_max_ttl)
                                                    (int32 c.loss_max_ttl))
                                                  (step
                                                    (when-given id srto_kmrefreshrate
                                                      (not (c.km_refresh_rate == 0x1000000))
                                                      (int32 (as_i32 c.km_refresh_rate)))
                                                    (step
                                                      (when-given id srto_kmpreannounce
                                                        (not (c.km_pre_announce == 0x1000))
                                                        (int32 (as_i32 c.km_pre_announce)))
                                                      (step
                                                        (when-given id srto_tlpktdrop (true)
                                                          (int32 (c_int_of c.tlpkt_drop)))
                                                        (step
                                                          (when-given id srto_rendezvous
                                                            (c.rendezvous) (int32 (pos 1)))
                                                          (last (
                                                            when-given id srto_groupconnect
                                                            c.group_connect
                                                            (int32
                                                            (pos 1))))))))))))))))))))))))))))))
