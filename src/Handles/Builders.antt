-- ===== src/Handles/Builders.antt =====
-- srt-transport/src/socket.rs, listener.rs and group.rs: the three builders and their options.
pub mod Agree
pub mod Endpoints
use bilbycast_libsrt_rs.Shared.{
  ℕ, Bool, List, [], ◌∷◌, ◌++◌, Option, none, some, ℤ, pos, length, Text, as_millis_u32, as_i32,
}
use bilbycast_libsrt_rs.Protocol.Config.{
  SrtConfig, KeySize, CryptoModeConfig, RetransmitAlgo, default_config, live_defaults,
  file_defaults,
}
use bilbycast_libsrt_rs.Bridge.Endpoint.{SocketAddr, GroupEndpoint, new_endpoint}

-- A call of a method that all three builders have, by its name and arguments. A duration is in
-- nanoseconds.
pub data Setting : Type 0 where
  latency : ℕ → Setting
  sender_latency : ℕ → Setting
  receiver_latency : ℕ → Setting
  encryption : Text → KeySize → Setting
  crypto_mode : CryptoModeConfig → Setting
  mss : ℕ → Setting
  flight_flag_size : ℕ → Setting
  send_buffer_size : ℕ → Setting
  recv_buffer_size : ℕ → Setting
  peer_idle_timeout : ℕ → Setting
  connect_timeout : ℕ → Setting
  live_mode : Setting
  stream_id : Text → Setting
  packet_filter : Text → Setting
  max_bw : ℤ → Setting
  input_bw : ℤ → Setting
  overhead_bw : ℤ → Setting
  max_rexmit_bw : ℤ → Setting
  enforced_encryption : Bool → Setting
  payload_size : ℕ → Setting
  ip_tos : ℤ → Setting
  ip_ttl : ℤ → Setting
  retransmit_algo : RetransmitAlgo → Setting
  send_drop_delay : ℤ → Setting
  loss_max_ttl : ℤ → Setting
  km_refresh_rate : ℕ → Setting
  km_pre_announce : ℕ → Setting
  tlpkt_drop : Bool → Setting

pub record SrtSocketBuilder : Type 0 where
  pub config : SrtConfig
  pub bind_addr : Option SocketAddr

-- An access-control hook is named by its identity.
pub record SrtListenerBuilder : Type 0 where
  pub config : SrtConfig
  pub backlog : ℤ
  pub access_control : Option ℕ

pub data GroupMode : Type 0 where
  broadcast backup : GroupMode

pub record SrtGroupBuilder : Type 0 where
  pub mode : GroupMode
  pub config : SrtConfig
  pub endpoints : List GroupEndpoint

unfoldable pub new_socket : SrtSocketBuilder
new_socket = record { config = default_config; bind_addr = none }

unfoldable pub new_listener : SrtListenerBuilder
new_listener = record { config = default_config; backlog = pos 5; access_control = none }

unfoldable pub new_group : GroupMode → SrtGroupBuilder
new_group mode = record { mode = mode; config = default_config; endpoints = [] }

-- The methods of `SrtSocketBuilder` that the others have too.
unfoldable pub set_socket : SrtSocketBuilder → Setting → SrtSocketBuilder
set_socket b (latency d) = record b {
  config = record b.config { recv_latency = as_millis_u32 d; peer_latency = as_millis_u32 d };
}
set_socket b (sender_latency d) = record b {
  config = record b.config { peer_latency = as_millis_u32 d };
}
set_socket b (receiver_latency d) = record b {
  config = record b.config { recv_latency = as_millis_u32 d };
}
set_socket b (encryption text size) = record b {
  config = record b.config { passphrase = text; key_size = size };
}
set_socket b (crypto_mode v) = record b { config = record b.config { crypto_mode = v } }
set_socket b (mss v) = record b { config = record b.config { mss = v } }
set_socket b (flight_flag_size v) = record b { config = record b.config { flight_flag_size = v } }
set_socket b (send_buffer_size v) = record b { config = record b.config { send_buffer_size = v } }
set_socket b (recv_buffer_size v) = record b { config = record b.config { recv_buffer_size = v } }
set_socket b (peer_idle_timeout v) = record b { config = record b.config { peer_idle_timeout = v } }
set_socket b (connect_timeout v) = record b { config = record b.config { connect_timeout = v } }
set_socket b live_mode = record b { config = live_defaults b.config }
set_socket b (stream_id v) = record b { config = record b.config { stream_id = v } }
set_socket b (packet_filter v) = record b { config = record b.config { packet_filter = v } }
set_socket b (max_bw v) = record b { config = record b.config { max_bw = v } }
set_socket b (input_bw v) = record b { config = record b.config { input_bw = v } }
set_socket b (overhead_bw v) = record b { config = record b.config { overhead_bw = v } }
set_socket b (max_rexmit_bw v) = record b { config = record b.config { max_rexmit_bw = v } }
set_socket b (enforced_encryption v) = record b {
  config = record b.config { enforced_encryption = v };
}
set_socket b (payload_size v) = record b { config = record b.config { payload_size = v } }
set_socket b (ip_tos v) = record b { config = record b.config { ip_tos = v } }
set_socket b (ip_ttl v) = record b { config = record b.config { ip_ttl = v } }
set_socket b (retransmit_algo v) = record b { config = record b.config { retransmit_algo = v } }
set_socket b (send_drop_delay v) = record b { config = record b.config { send_drop_delay = v } }
set_socket b (loss_max_ttl v) = record b { config = record b.config { loss_max_ttl = v } }
set_socket b (km_refresh_rate v) = record b { config = record b.config { km_refresh_rate = v } }
set_socket b (km_pre_announce v) = record b { config = record b.config { km_pre_announce = v } }
set_socket b (tlpkt_drop v) = record b { config = record b.config { tlpkt_drop = v } }

-- The methods of `SrtListenerBuilder` that the others have too.
unfoldable pub set_listener : SrtListenerBuilder → Setting → SrtListenerBuilder
set_listener b (latency d) = record b {
  config = record b.config { recv_latency = as_millis_u32 d; peer_latency = as_millis_u32 d };
}
set_listener b (sender_latency d) = record b {
  config = record b.config { peer_latency = as_millis_u32 d };
}
set_listener b (receiver_latency d) = record b {
  config = record b.config { recv_latency = as_millis_u32 d };
}
set_listener b (encryption text size) = record b {
  config = record b.config { passphrase = text; key_size = size };
}
set_listener b (crypto_mode v) = record b { config = record b.config { crypto_mode = v } }
set_listener b (mss v) = record b { config = record b.config { mss = v } }
set_listener b (flight_flag_size v) = record b { config = record b.config { flight_flag_size = v } }
set_listener b (send_buffer_size v) = record b { config = record b.config { send_buffer_size = v } }
set_listener b (recv_buffer_size v) = record b { config = record b.config { recv_buffer_size = v } }
set_listener b (peer_idle_timeout v) = record b {
  config = record b.config { peer_idle_timeout = v };
}
set_listener b (connect_timeout v) = record b { config = record b.config { connect_timeout = v } }
set_listener b live_mode = record b { config = live_defaults b.config }
set_listener b (stream_id v) = record b { config = record b.config { stream_id = v } }
set_listener b (packet_filter v) = record b { config = record b.config { packet_filter = v } }
set_listener b (max_bw v) = record b { config = record b.config { max_bw = v } }
set_listener b (input_bw v) = record b { config = record b.config { input_bw = v } }
set_listener b (overhead_bw v) = record b { config = record b.config { overhead_bw = v } }
set_listener b (max_rexmit_bw v) = record b { config = record b.config { max_rexmit_bw = v } }
set_listener b (enforced_encryption v) = record b {
  config = record b.config { enforced_encryption = v };
}
set_listener b (payload_size v) = record b { config = record b.config { payload_size = v } }
set_listener b (ip_tos v) = record b { config = record b.config { ip_tos = v } }
set_listener b (ip_ttl v) = record b { config = record b.config { ip_ttl = v } }
set_listener b (retransmit_algo v) = record b { config = record b.config { retransmit_algo = v } }
set_listener b (send_drop_delay v) = record b { config = record b.config { send_drop_delay = v } }
set_listener b (loss_max_ttl v) = record b { config = record b.config { loss_max_ttl = v } }
set_listener b (km_refresh_rate v) = record b { config = record b.config { km_refresh_rate = v } }
set_listener b (km_pre_announce v) = record b { config = record b.config { km_pre_announce = v } }
set_listener b (tlpkt_drop v) = record b { config = record b.config { tlpkt_drop = v } }

-- The methods of `SrtGroupBuilder` that the others have too.
unfoldable pub set_group : SrtGroupBuilder → Setting → SrtGroupBuilder
set_group b (latency d) = record b {
  config = record b.config { recv_latency = as_millis_u32 d; peer_latency = as_millis_u32 d };
}
set_group b (encryption text size) = record b {
  config = record b.config { passphrase = text; key_size = size };
}
set_group b (crypto_mode v) = record b { config = record b.config { crypto_mode = v } }
set_group b live_mode = record b { config = live_defaults b.config }
set_group b (stream_id v) = record b { config = record b.config { stream_id = v } }
set_group b (packet_filter v) = record b { config = record b.config { packet_filter = v } }
set_group b (max_bw v) = record b { config = record b.config { max_bw = v } }
set_group b (max_rexmit_bw v) = record b { config = record b.config { max_rexmit_bw = v } }
set_group b (flight_flag_size v) = record b { config = record b.config { flight_flag_size = v } }
set_group b (send_buffer_size v) = record b { config = record b.config { send_buffer_size = v } }
set_group b (recv_buffer_size v) = record b { config = record b.config { recv_buffer_size = v } }
set_group b (peer_idle_timeout v) = record b { config = record b.config { peer_idle_timeout = v } }
set_group b (ip_tos v) = record b { config = record b.config { ip_tos = v } }
set_group b (payload_size v) = record b { config = record b.config { payload_size = v } }
set_group b (retransmit_algo v) = record b { config = record b.config { retransmit_algo = v } }
set_group b (receiver_latency d) = record b {
  config = record b.config { recv_latency = as_millis_u32 d };
}
set_group b (sender_latency d) = record b {
  config = record b.config { peer_latency = as_millis_u32 d };
}
set_group b (input_bw v) = record b { config = record b.config { input_bw = v } }
set_group b (overhead_bw v) = record b { config = record b.config { overhead_bw = v } }
set_group b (enforced_encryption v) = record b {
  config = record b.config { enforced_encryption = v };
}
set_group b (connect_timeout v) = record b { config = record b.config { connect_timeout = v } }
set_group b (send_drop_delay v) = record b { config = record b.config { send_drop_delay = v } }
set_group b (loss_max_ttl v) = record b { config = record b.config { loss_max_ttl = v } }
set_group b (km_refresh_rate v) = record b { config = record b.config { km_refresh_rate = v } }
set_group b (km_pre_announce v) = record b { config = record b.config { km_pre_announce = v } }
set_group b (mss v) = record b { config = record b.config { mss = v } }
set_group b (tlpkt_drop v) = record b { config = record b.config { tlpkt_drop = v } }
set_group b (ip_ttl v) = record b { config = record b.config { ip_ttl = v } }

-- The methods that only some have.
unfoldable pub socket_file_mode : SrtSocketBuilder → SrtSocketBuilder
socket_file_mode b = record b { config = file_defaults b.config }

unfoldable pub rendezvous : SrtSocketBuilder → Bool → SrtSocketBuilder
rendezvous b enable = record b { config = record b.config { rendezvous = enable } }

unfoldable pub bind_to : SrtSocketBuilder → SocketAddr → SrtSocketBuilder
bind_to b addr = record b { bind_addr = some addr }

unfoldable pub listener_file_mode : SrtListenerBuilder → SrtListenerBuilder
listener_file_mode b = record b { config = file_defaults b.config }

unfoldable pub with_backlog : SrtListenerBuilder → ℤ → SrtListenerBuilder
with_backlog b n = record b { backlog = n }

unfoldable pub guard_with : SrtListenerBuilder → ℕ → SrtListenerBuilder
guard_with b ac = record b { access_control = some ac }

unfoldable pub group_connect : SrtListenerBuilder → Bool → SrtListenerBuilder
group_connect b enable = record b { config = record b.config { group_connect = enable } }

unfoldable pub add_endpoint : SrtGroupBuilder → SocketAddr → SrtGroupBuilder
add_endpoint b addr = record b {
  endpoints = b.endpoints ++ new_endpoint addr (as_i32 (length b.endpoints)) ∷ [];
}

unfoldable pub add_member : SrtGroupBuilder → GroupEndpoint → SrtGroupBuilder
add_member b ep = record b { endpoints = b.endpoints ++ ep ∷ [] }
