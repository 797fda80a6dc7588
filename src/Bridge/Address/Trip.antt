-- ===== src/Bridge/Address/Trip.antt =====
-- An address given to libsrt and read back.
use bilbycast_libsrt_rs.Shared.{ℕ, ◌+◌, ◌*◌, ◌/◌, ◌%◌, ◌^◌, ◌<◌, ◌≡◌, refl, ap, some, arith}
use bilbycast_libsrt_rs.Bridge.Endpoint.{SocketAddr, v4, v6}
use bilbycast_libsrt_rs.Bridge.Address.{
  Endian, little, big, swap16, swap32, be16, be32, from_ne_bytes, socket_addr_to_sockaddr,
  sockaddr_to_socket_addr, ipv4_of,
}

be16-be16 : (e : Endian) (n : ℕ) → n < 2 ^ 16 → be16 e (be16 e n) ≡ n
unfolding be16 swap16
be16-be16 little n small = omega arith
be16-be16 big n small = refl

-- The four octets as one number, the first the highest.
abbrev octets_value : ℕ → ℕ → ℕ → ℕ → ℕ
octets_value a b c d = a * 2 ^ 24 + b * 2 ^ 16 + c * 256 + d

be32-from_ne_bytes :
    (e : Endian) (a b c d : ℕ)
    → a < 256
    → b < 256
    → c < 256
    → d < 256
    → be32 e (from_ne_bytes e a b c d) ≡ octets_value a b c d
unfolding be32 swap32 from_ne_bytes
be32-from_ne_bytes little a b c d ha hb hc hd = omega arith
be32-from_ne_bytes big a b c d ha hb hc hd = refl

ipv4_of-octets :
    (a b c d port : ℕ)
    → a < 256
    → b < 256
    → c < 256
    → d < 256
    → ipv4_of (octets_value a b c d) port ≡ v4 a b c d port
ipv4_of-octets a b c d port ha hb hc hd =
    let e1 : octets_value a b c d / 2 ^ 24 % 256 ≡ a = omega arith in
    let e2 : octets_value a b c d / 2 ^ 16 % 256 ≡ b = omega arith in
    let e3 : octets_value a b c d / 256 % 256 ≡ c = omega arith in
    let e4 : octets_value a b c d % 256 ≡ d = omega arith in cc

-- The octets of an IPv4 address are bytes, and a port has 16 bits.
abbrev pub InRange : SocketAddr → Type 0
InRange (v4 a b c d port) = (a < 256) × (b < 256) × (c < 256) × (d < 256) × (port < 2 ^ 16)
InRange (v6 octets port flowinfo scope_id) = port < 2 ^ 16

-- The address without IPv6's flow label and scope.
abbrev pub without_scope : SocketAddr → SocketAddr
without_scope (v4 a b c d port) = v4 a b c d port
without_scope (v6 octets port flowinfo scope_id) = v6 octets port 0 0

-- An address reads back from libsrt's form, on a target of either byte order, but without an IPv6
-- address's flow label and scope: an IPv4 address and every port come back as they were.
pub sockaddr_trip :
    (e : Endian) (addr : SocketAddr)
    → InRange addr
    → sockaddr_to_socket_addr e (some (socket_addr_to_sockaddr e addr)) ≡ some (without_scope addr)
unfolding sockaddr_to_socket_addr socket_addr_to_sockaddr
sockaddr_trip e (v4 a b c d port) (ha, hb, hc, hd, hp) =
    rw (be32-from_ne_bytes e a b c d ha hb hc hd, be16-be16 e port hp)
      (ap some (ipv4_of-octets a b c d port ha hb hc hd))
sockaddr_trip e (v6 octets port flowinfo scope_id) hp = rw (be16-be16 e port hp) refl
