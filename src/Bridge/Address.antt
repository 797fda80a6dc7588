-- ===== src/Bridge/Address.antt =====
-- srt-transport/src/epoll_bridge.rs: addresses to and from libsrt's `sockaddr_storage`.
pub mod Trip
use bilbycast_libsrt_rs.Shared.{
  ℕ, ◌+◌, ◌*◌, ◌/◌, ◌%◌, ◌^◌, Bool, true, false, List, [], ◌∷◌, Option, none, some, ◌==◌,
  if◌then◌else◌,
}
use bilbycast_libsrt_rs.Bridge.Endpoint.{SocketAddr, v4, v6}

-- The byte order of the target: the model holds for either.
pub data Endian : Type 0 where
  little big : Endian

-- `u16::swap_bytes` and `u32::swap_bytes`
unfoldable pub swap16 : ℕ → ℕ
swap16 n = n % 256 * 256 + n / 256

unfoldable pub swap32 : ℕ → ℕ
swap32 n = n % 256 * 2 ^ 24 + n / 256 % 256 * 2 ^ 16 + n / 2 ^ 16 % 256 * 256 + n / 2 ^ 24

-- `to_be` and `from_be` of a `u16`, and `from_be` of a `u32`
unfoldable pub be16 : Endian → ℕ → ℕ
be16 little n = swap16 n
be16 big n = n

unfoldable pub be32 : Endian → ℕ → ℕ
be32 little n = swap32 n
be32 big n = n

-- `u32::from_ne_bytes`
unfoldable pub from_ne_bytes : Endian → ℕ → ℕ → ℕ → ℕ → ℕ
from_ne_bytes little a b c d = a + b * 256 + c * 2 ^ 16 + d * 2 ^ 24
from_ne_bytes big a b c d = a * 2 ^ 24 + b * 2 ^ 16 + c * 256 + d

-- `sockaddr_storage` by its family: `AF_INET`, `AF_INET6`, or any other.
pub data Sockaddr : Type 0 where
  inet : (port addr : ℕ) → Sockaddr
  inet6 : (port flowinfo : ℕ) → (octets : List ℕ) → (scope_id : ℕ) → Sockaddr
  other_family : ℕ → Sockaddr

unfoldable pub socket_addr_to_sockaddr : Endian → SocketAddr → Sockaddr
socket_addr_to_sockaddr e (v4 a b c d port) = inet (be16 e port) (from_ne_bytes e a b c d)
socket_addr_to_sockaddr e (v6 octets port flowinfo scope_id) =
    inet6 (be16 e port) flowinfo octets scope_id

-- `Ipv4Addr::from(u32)`, with the port.
abbrev pub ipv4_of : ℕ → ℕ → SocketAddr
ipv4_of n port = v4 (n / 2 ^ 24 % 256) (n / 2 ^ 16 % 256) (n / 256 % 256) (n % 256) port

-- A null pointer is `none` here.
unfoldable pub sockaddr_to_socket_addr : Endian → Option Sockaddr → Option SocketAddr
sockaddr_to_socket_addr e none = none
sockaddr_to_socket_addr e (some (inet port addr)) = some (ipv4_of (be32 e addr) (be16 e port))
sockaddr_to_socket_addr e (some (inet6 port flowinfo octets scope_id)) =
    some (v6 octets (be16 e port) 0 0)
sockaddr_to_socket_addr e (some (other_family f)) = none
