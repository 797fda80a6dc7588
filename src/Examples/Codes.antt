-- ===== src/Examples/Codes.antt =====
-- The properties of the protocol's values at concrete inputs.
use bilbycast_libsrt_rs.Shared.{◌+◌, ◌%◌, ◌^◌, ◌≡◌, refl, ◌↔◌, some, [], ◌∷◌, pos, codes, arith}
use bilbycast_libsrt_rs.Protocol.Config.{KeySize, to_km_field, from_km_field}
use bilbycast_libsrt_rs.Protocol.Error.{SrtError, code, from_code}
use bilbycast_libsrt_rs.Protocol.Codes.{IsFaithful, from_code-IsFaithful, from_km_field_iff}
use bilbycast_libsrt_rs.Protocol.StreamId.{StreamIdInfo, blank, parts, parse, to_stream_id}
use bilbycast_libsrt_rs.Protocol.StreamId.Trip.{parse-to_stream_id}
use bilbycast_libsrt_rs.Bridge.Endpoint.{v6}
use bilbycast_libsrt_rs.Bridge.Address.{little, socket_addr_to_sockaddr, sockaddr_to_socket_addr}
use bilbycast_libsrt_rs.Bridge.Address.Trip.{sockaddr_trip}

from_code-IsFaithful_example :
    IsFaithful code from_code SrtError.unknown (pos 6001)
    × ((e : SrtError) → from_code (code e) ≡ e)
from_code-IsFaithful_example = from_code-IsFaithful (pos 6001)

from_km_field_iff_example :
    (from_km_field (2 ^ 30 + 4) ≡ some KeySize.aes128)
    ↔ ((2 ^ 30 + 4) % 2 ^ 30 ≡ to_km_field KeySize.aes128)
from_km_field_iff_example = from_km_field_iff (2 ^ 30 + 4) KeySize.aes128

-- `#!::r=ab,x=1`
abbrev stream : StreamIdInfo
stream = record (blank []) { resource = some (codes "ab"); extra = (codes "x", codes "1") ∷ [] }

parse-to_stream_id_example :
    parse (λ text. text) (to_stream_id stream) ≡ record stream { raw = to_stream_id stream }
unfolding parts
parse-to_stream_id_example =
    parse-to_stream_id (λ text. text) stream refl ((refl, refl), tt)
      ((refl, refl), ((refl, refl), tt))

-- A link-local address: its scope, 2, does not come back.
sockaddr_trip_example :
    sockaddr_to_socket_addr little
      (some (socket_addr_to_sockaddr little (v6 (254 ∷ 128 ∷ []) 9000 0 2)))
    ≡ some (v6 (254 ∷ 128 ∷ []) 9000 0 0)
sockaddr_trip_example = sockaddr_trip little (v6 (254 ∷ 128 ∷ []) 9000 0 2) (omega arith)
