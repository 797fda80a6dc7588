-- ===== src/Bridge/SockOpt.antt =====
-- libsrt's socket options (`SRT_SOCKOPT`), as srt-transport/src/epoll_bridge.rs names them, and the values
-- that are passed for one.
use bilbycast_libsrt_rs.Shared.{ℤ, Text}

pub data SockOpt : Type 0 where
  srto_transtype srto_rcvlatency srto_peerlatency srto_mss srto_fc srto_sndbuf srto_rcvbuf : SockOpt
  srto_peeridletimeo srto_conntimeo srto_payloadsize srto_passphrase srto_pbkeylen : SockOpt
  srto_cryptomode srto_enforcedencryption srto_maxbw srto_inputbw srto_oheadbw : SockOpt
  srto_maxrexmitbw srto_streamid srto_packetfilter srto_iptos srto_ipttl srto_retransmitalgo :
      SockOpt
  srto_snddropdelay srto_lossmaxttl srto_kmrefreshrate srto_kmpreannounce srto_tlpktdrop : SockOpt
  srto_rendezvous srto_groupconnect srto_rcvsyn srto_sndsyn srto_rcvdata : SockOpt

-- The buffer of one `srt_setsockflag`: an `i32` (a `bool` is passed as 0 or 1), an `i64`, or characters.
pub data OptValue : Type 0 where
  int32 int64 : ℤ → OptValue
  characters : Text → OptValue
