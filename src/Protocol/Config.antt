-- ===== src/Protocol/Config.antt =====
-- srt-protocol/src/config.rs: the option enums, the socket configuration and its two presets.
use bilbycast_libsrt_rs.Shared.{
  ℕ, ◌*◌, ◌/◌, ◌%◌, ◌^◌, Bool, true, false, not, Option, none, some, [], ℤ, pos, negsuc, ◌==◌,
  if◌then◌else◌, Text, codes, is_empty, from_secs, from_millis,
}

pub data TransType : Type 0 where
  live file : TransType

pub data CryptoModeConfig : Type 0 where
  aes_ctr aes_gcm : CryptoModeConfig

pub data KeySize : Type 0 where
  aes128 aes192 aes256 : KeySize

unfoldable pub from_bytes : ℕ → Option KeySize
from_bytes len =
    if len == 16
    then some KeySize.aes128
    else if len == 24
    then some KeySize.aes192
    else if len == 32
    then some KeySize.aes256
    else none

-- `self as u32`, the discriminant: the key's length in bytes.
abbrev pub key_bytes : KeySize → ℕ
key_bytes KeySize.aes128 = 16
key_bytes KeySize.aes192 = 24
key_bytes KeySize.aes256 = 32

unfoldable pub to_km_field : KeySize → ℕ
to_km_field k = key_bytes k / 4

-- `field * 4` is a `u32` product: it wraps (in a release build).
unfoldable pub from_km_field : ℕ → Option KeySize
unfolding from_bytes
from_km_field field = from_bytes (field * 4 % 2 ^ 32)

pub data RetransmitAlgo : Type 0 where
  default reduced : RetransmitAlgo

pub data KmState : Type 0 where
  unsecured securing secured no_secret bad_secret bad_crypto_mode : KmState

unfoldable pub km_state_from_value : ℤ → KmState
km_state_from_value (pos v) =
    if v == 0
    then KmState.unsecured
    else if v == 1
    then KmState.securing
    else if v == 2
    then KmState.secured
    else if v == 3
    then KmState.no_secret
    else if v == 4
    then KmState.bad_secret
    else if v == 5
    then KmState.bad_crypto_mode
    else KmState.unsecured
km_state_from_value (negsuc v) = KmState.unsecured

-- `u32` fields are ℕ, `i32` and `i64` fields ℤ, a `Duration` is in nanoseconds.
pub record SrtConfig : Type 0 where
  pub mss : ℕ
  pub flight_flag_size : ℕ
  pub send_buffer_size : ℕ
  pub recv_buffer_size : ℕ
  pub udp_send_buffer_size : ℕ
  pub udp_recv_buffer_size : ℕ
  pub send_sync : Bool
  pub recv_sync : Bool
  pub send_timeout : Option ℕ
  pub recv_timeout : Option ℕ
  pub reuse_addr : Bool
  pub linger : Option ℕ
  pub connect_timeout : ℕ
  pub rendezvous : Bool
  pub ipv6_only : Bool
  pub ip_ttl : ℤ
  pub ip_tos : ℤ
  pub bind_to_device : Option Text
  pub peer_idle_timeout : ℕ
  pub trans_type : TransType
  pub message_api : Bool
  pub payload_size : ℕ
  pub max_bw : ℤ
  pub input_bw : ℤ
  pub min_input_bw : ℤ
  pub overhead_bw : ℤ
  pub max_rexmit_bw : ℤ
  pub tsbpd_mode : Bool
  pub recv_latency : ℕ
  pub peer_latency : ℕ
  pub tlpkt_drop : Bool
  pub send_drop_delay : ℤ
  pub nak_report : Bool
  pub drift_tracer : Bool
  pub loss_max_ttl : ℤ
  pub passphrase : Text
  pub key_size : KeySize
  pub crypto_mode : CryptoModeConfig
  pub enforced_encryption : Bool
  pub km_refresh_rate : ℕ
  pub km_pre_announce : ℕ
  pub sender : Bool
  pub stream_id : Text
  pub congestion : Text
  pub packet_filter : Text
  pub retransmit_algo : RetransmitAlgo
  pub min_version : ℕ
  pub group_connect : Bool
  pub group_min_stable_timeout : ℕ

-- `SrtConfig::default()`
unfoldable pub default_config : SrtConfig
default_config = record {
  mss = 1500;
  flight_flag_size = 25600;
  send_buffer_size = 8192 * 1316;
  recv_buffer_size = 8192 * 1316;
  udp_send_buffer_size = 65536;
  udp_recv_buffer_size = 65536;
  send_sync = true;
  recv_sync = true;
  send_timeout = none;
  recv_timeout = none;
  reuse_addr = true;
  linger = some (from_secs 180);
  connect_timeout = from_secs 3;
  rendezvous = false;
  ipv6_only = false;
  ip_ttl = pos 64;
  ip_tos = pos 0;
  bind_to_device = none;
  peer_idle_timeout = from_secs 5;
  trans_type = TransType.live;
  message_api = true;
  payload_size = 1316;
  max_bw = negsuc 0;
  input_bw = pos 0;
  min_input_bw = pos 0;
  overhead_bw = pos 25;
  max_rexmit_bw = negsuc 0;
  tsbpd_mode = true;
  recv_latency = 120;
  peer_latency = 0;
  tlpkt_drop = true;
  send_drop_delay = negsuc 0;
  nak_report = true;
  drift_tracer = true;
  loss_max_ttl = pos 0;
  passphrase = [];
  key_size = KeySize.aes128;
  crypto_mode = CryptoModeConfig.aes_ctr;
  enforced_encryption = true;
  km_refresh_rate = 0x1000000;
  km_pre_announce = 0x1000;
  sender = false;
  stream_id = [];
  congestion = codes "live";
  packet_filter = [];
  retransmit_algo = RetransmitAlgo.default;
  min_version = 0;
  group_connect = false;
  group_min_stable_timeout = from_millis 60;
}

unfoldable pub live_defaults : SrtConfig → SrtConfig
live_defaults c = record c {
  trans_type = TransType.live;
  message_api = true;
  tsbpd_mode = true;
  tlpkt_drop = true;
  nak_report = true;
  payload_size = 1316;
  congestion = codes "live";
}

unfoldable pub file_defaults : SrtConfig → SrtConfig
file_defaults c = record c {
  trans_type = TransType.file;
  message_api = true;
  tsbpd_mode = false;
  tlpkt_drop = false;
  nak_report = false;
  payload_size = 0;
  congestion = codes "file";
}

unfoldable pub encryption_enabled : SrtConfig → Bool
encryption_enabled c = not (is_empty c.passphrase)

pub data SocketStatus : Type 0 where
  init opened listening connecting connected broken closing closed non_exist : SocketStatus

pub data MemberStatus : Type 0 where
  pending idle running broken : MemberStatus
