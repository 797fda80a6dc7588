-- ===== src/Bridge/AccessControl.antt =====
-- srt-protocol/src/access_control.rs: `HandshakeInfo` and the `AccessControl` trait; and
-- srt-transport/src/epoll_bridge.rs: libsrt's callback on a handshake (`listen_callback_trampoline`).
use bilbycast_libsrt_rs.Shared.{
  ℕ, Bool, false, List, [], Option, none, some, ℤ, pos, negsuc, Text, ◌≡◌, refl, ◌↔◌,
}
use bilbycast_libsrt_rs.Protocol.Reject.{RejectReason}
use bilbycast_libsrt_rs.Bridge.Endpoint.{SocketAddr, v4}
use bilbycast_libsrt_rs.Bridge.Address.{Endian, Sockaddr, sockaddr_to_socket_addr}

pub record HandshakeInfo : Type 0 where
  pub peer_addr : SocketAddr
  pub stream_id : Text
  pub is_encrypted : Bool
  pub peer_socket_id : ℕ
  pub peer_version : ℤ

-- How a call of `on_accept` ends; it may panic.
pub data Verdict : Type 0 where
  accepted panicked : Verdict
  rejected : RejectReason → Verdict

-- An implementation of the trait.
abbrev pub AccessControl : Type 0
AccessControl = HandshakeInfo → Verdict

unfoldable pub accept_all : AccessControl
accept_all info = accepted

-- `AccessControlFn`
unfoldable pub access_control_fn : (HandshakeInfo → Verdict) → AccessControl
access_control_fn f info = f info

-- `peer_addr.unwrap_or_else(|| "0.0.0.0:0".parse().unwrap())`
abbrev pub addr_or_unspecified : Option SocketAddr → SocketAddr
addr_or_unspecified none = v4 0 0 0 0 0
addr_or_unspecified (some addr) = addr

-- The stream id of a C string, where there is one; `to_string_lossy` is std's, a parameter.
abbrev pub stream_id_of : (to_string_lossy : List ℕ → Text) → Option (List ℕ) → Text
stream_id_of to_string_lossy none = []
stream_id_of to_string_lossy (some bytes) = to_string_lossy bytes

-- The match on the verdict: 0 accepts, -1 rejects.
unfoldable pub verdict_code : Verdict → ℤ
verdict_code accepted = pos 0
verdict_code (rejected reason) = negsuc 0
verdict_code panicked = negsuc 0

-- A null pointer is `none` here.
unfoldable pub listen_callback_trampoline :
    Endian
    → (to_string_lossy : List ℕ → Text) → (opaque : Option AccessControl) → (hs_version : ℤ)
    → (peeraddr : Option Sockaddr) → (streamid : Option (List ℕ)) → ℤ
listen_callback_trampoline e to_string_lossy none hs_version peeraddr streamid = pos 0
listen_callback_trampoline e to_string_lossy (some ac) hs_version peeraddr streamid = verdict_code (
    ac (record {
      peer_addr = addr_or_unspecified (sockaddr_to_socket_addr e peeraddr);
      stream_id = stream_id_of to_string_lossy streamid;
      is_encrypted = false;
      peer_socket_id = 0;
      peer_version = hs_version;
    }))

verdict_code_iff : (v : Verdict) → (verdict_code v ≡ pos 0) ↔ (v ≡ accepted)
unfolding verdict_code
verdict_code_iff accepted = (λ e. refl, λ e. refl)
verdict_code_iff (rejected reason) = (λ e. cc, λ e. cc)
verdict_code_iff panicked = (λ e. cc, λ e. cc)
