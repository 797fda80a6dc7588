-- ===== src/Handles/Builders/Agree.antt =====
-- What the three builders have in common.
use bilbycast_libsrt_rs.Shared.{◌≡◌, refl, List, [], ◌∷◌}
use bilbycast_libsrt_rs.Handles.Builders.{
  Setting, SrtSocketBuilder, SrtListenerBuilder, SrtGroupBuilder, set_socket, set_listener,
  set_group, latency, sender_latency, receiver_latency, encryption, crypto_mode, mss,
  flight_flag_size, send_buffer_size, recv_buffer_size, peer_idle_timeout, connect_timeout,
  live_mode, stream_id, packet_filter, max_bw, input_bw, overhead_bw, max_rexmit_bw,
  enforced_encryption, payload_size, ip_tos, ip_ttl, retransmit_algo, send_drop_delay, loss_max_ttl,
  km_refresh_rate, km_pre_announce, tlpkt_drop,
}

-- A chain of calls on a builder.
abbrev pub chain {ℓ} : {B : Type ℓ} → (B → Setting → B) → B → List Setting → B
chain set b [] = b
chain set b (s ∷ ss) = chain set (set b s) ss

module _ (bs : SrtSocketBuilder) (bl : SrtListenerBuilder) (bg : SrtGroupBuilder) where
  -- The builders hold one configuration.
  abbrev pub Agree : Type 0
  Agree = (bs.config ≡ bl.config) × (bs.config ≡ bg.config)

set-Agree :
    (bs : SrtSocketBuilder) (bl : SrtListenerBuilder) (bg : SrtGroupBuilder) (s : Setting)
    → Agree bs bl bg
    → Agree (set_socket bs s) (set_listener bl s) (set_group bg s)
unfolding set_socket set_listener set_group
set-Agree bs bl bg (latency v) (l, g) = (rw l refl, rw g refl)
set-Agree bs bl bg (sender_latency v) (l, g) = (rw l refl, rw g refl)
set-Agree bs bl bg (receiver_latency v) (l, g) = (rw l refl, rw g refl)
set-Agree bs bl bg (encryption text size) (l, g) = (rw l refl, rw g refl)
set-Agree bs bl bg (crypto_mode v) (l, g) = (rw l refl, rw g refl)
set-Agree bs bl bg (mss v) (l, g) = (rw l refl, rw g refl)
set-Agree bs bl bg (flight_flag_size v) (l, g) = (rw l refl, rw g refl)
set-Agree bs bl bg (send_buffer_size v) (l, g) = (rw l refl, rw g refl)
set-Agree bs bl bg (recv_buffer_size v) (l, g) = (rw l refl, rw g refl)
set-Agree bs bl bg (peer_idle_timeout v) (l, g) = (rw l refl, rw g refl)
set-Agree bs bl bg (connect_timeout v) (l, g) = (rw l refl, rw g refl)
set-Agree bs bl bg live_mode (l, g) = (rw l refl, rw g refl)
set-Agree bs bl bg (stream_id v) (l, g) = (rw l refl, rw g refl)
set-Agree bs bl bg (packet_filter v) (l, g) = (rw l refl, rw g refl)
set-Agree bs bl bg (max_bw v) (l, g) = (rw l refl, rw g refl)
set-Agree bs bl bg (input_bw v) (l, g) = (rw l refl, rw g refl)
set-Agree bs bl bg (overhead_bw v) (l, g) = (rw l refl, rw g refl)
set-Agree bs bl bg (max_rexmit_bw v) (l, g) = (rw l refl, rw g refl)
set-Agree bs bl bg (enforced_encryption v) (l, g) = (rw l refl, rw g refl)
set-Agree bs bl bg (payload_size v) (l, g) = (rw l refl, rw g refl)
set-Agree bs bl bg (ip_tos v) (l, g) = (rw l refl, rw g refl)
set-Agree bs bl bg (ip_ttl v) (l, g) = (rw l refl, rw g refl)
set-Agree bs bl bg (retransmit_algo v) (l, g) = (rw l refl, rw g refl)
set-Agree bs bl bg (send_drop_delay v) (l, g) = (rw l refl, rw g refl)
set-Agree bs bl bg (loss_max_ttl v) (l, g) = (rw l refl, rw g refl)
set-Agree bs bl bg (km_refresh_rate v) (l, g) = (rw l refl, rw g refl)
set-Agree bs bl bg (km_pre_announce v) (l, g) = (rw l refl, rw g refl)
set-Agree bs bl bg (tlpkt_drop v) (l, g) = (rw l refl, rw g refl)

-- One chain of settings gives one configuration, whichever builder it is called on: a caller, a listener
-- and a group whose configurations agreed before agree after.
pub chain-Agree :
    (bs : SrtSocketBuilder) (bl : SrtListenerBuilder) (bg : SrtGroupBuilder) (ss : List Setting)
    → Agree bs bl bg
    → Agree (chain set_socket bs ss) (chain set_listener bl ss) (chain set_group bg ss)
chain-Agree bs bl bg [] agree = agree
chain-Agree bs bl bg (s ∷ ss) agree =
    chain-Agree (set_socket bs s) (set_listener bl s) (set_group bg s) ss
      (set-Agree bs bl bg s agree)
