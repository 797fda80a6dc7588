-- ===== src/Bridge/Endpoint.antt =====
-- srt-transport/src/group.rs: `GroupEndpoint`, the description of one member link, and its check.
use bilbycast_libsrt_rs.Shared.{
  ℕ, Bool, true, false, not, ◌||◌, List, Option, none, some, ℤ, is_nonneg, ltb, if◌then◌else◌,
}
use bilbycast_libsrt_rs.Protocol.Error.{SrtError, Result, ok, err}

-- std's `SocketAddr`: the octets of the address, the port, and for IPv6 flow label and scope.
pub data SocketAddr : Type 0 where
  v4 : (a b c d port : ℕ) → SocketAddr
  v6 : (octets : List ℕ) (port flowinfo scope_id : ℕ) → SocketAddr

unfoldable pub is_ipv4 : SocketAddr → Bool
is_ipv4 (v4 a b c d port) = true
is_ipv4 (v6 octets port flowinfo scope_id) = false

abbrev pub max_group_member_weight : ℕ
max_group_member_weight = 32767

pub record GroupEndpoint : Type 0 where
  pub addr : SocketAddr
  pub local_addr : Option SocketAddr
  pub weight : ℕ
  pub token : ℤ

unfoldable pub new_endpoint : SocketAddr → ℤ → GroupEndpoint
new_endpoint addr token = record { addr = addr; local_addr = none; weight = 0; token = token }

abbrev pub bool_eq : Bool → Bool → Bool
bool_eq true b = b
bool_eq false b = not b

-- The first test of `check`: a source address of the other family.
abbrev family_mismatch : Option SocketAddr → SocketAddr → Bool
family_mismatch none addr = false
family_mismatch (some local) addr = not (bool_eq (is_ipv4 local) (is_ipv4 addr))

unfoldable pub check : GroupEndpoint → Result (Unit {0})
unfolding is_ipv4
check ep =
    if family_mismatch ep.local_addr ep.addr
    then err SrtError.invalid_param
    else if ltb max_group_member_weight ep.weight || not (is_nonneg ep.token)
    then err SrtError.invalid_param
    else ok tt
