-- ===== src/Protocol/Reject.antt =====
-- srt-protocol/src/error.rs, `RejectReason`: why a handshake is refused.
use Prim.Native.String.{String}
use bilbycast_libsrt_rs.Shared.{List, [], ◌∷◌, ℤ, pos}
use bilbycast_libsrt_rs.Protocol.Error.{match_code}

pub data RejectReason : Type 0 where
  unknown system peer resource rogue backlog ipe close version rdv_cookie bad_secret unsecure
        message_api congestion filter group timeout crypto :
      RejectReason

-- `self as i32`, the discriminant.
unfoldable pub reason_code : RejectReason → ℤ
reason_code RejectReason.unknown = pos 0
reason_code RejectReason.system = pos 1
reason_code RejectReason.peer = pos 2
reason_code RejectReason.resource = pos 3
reason_code RejectReason.rogue = pos 4
reason_code RejectReason.backlog = pos 5
reason_code RejectReason.ipe = pos 6
reason_code RejectReason.close = pos 7
reason_code RejectReason.version = pos 8
reason_code RejectReason.rdv_cookie = pos 9
reason_code RejectReason.bad_secret = pos 10
reason_code RejectReason.unsecure = pos 11
reason_code RejectReason.message_api = pos 12
reason_code RejectReason.congestion = pos 13
reason_code RejectReason.filter = pos 14
reason_code RejectReason.group = pos 15
reason_code RejectReason.timeout = pos 16
reason_code RejectReason.crypto = pos 17

-- The arms of the match of `from_code`, in order.
unfoldable pub reason_arms : List (ℤ × RejectReason)
reason_arms =
    (pos 0, RejectReason.unknown)
    ∷ (pos 1, RejectReason.system)
    ∷ (pos 2, RejectReason.peer)
    ∷ (pos 3, RejectReason.resource)
    ∷ (pos 4, RejectReason.rogue)
    ∷ (pos 5, RejectReason.backlog)
    ∷ (pos 6, RejectReason.ipe)
    ∷ (pos 7, RejectReason.close)
    ∷ (pos 8, RejectReason.version)
    ∷ (pos 9, RejectReason.rdv_cookie)
    ∷ (pos 10, RejectReason.bad_secret)
    ∷ (pos 11, RejectReason.unsecure)
    ∷ (pos 12, RejectReason.message_api)
    ∷ (pos 13, RejectReason.congestion)
    ∷ (pos 14, RejectReason.filter)
    ∷ (pos 15, RejectReason.group)
    ∷ (pos 16, RejectReason.timeout)
    ∷ (pos 17, RejectReason.crypto)
    ∷ []

unfoldable pub reason_from_code : ℤ → RejectReason
unfolding reason_arms match_code
reason_from_code c = match_code reason_arms RejectReason.unknown c

-- The text that `Display` writes.
unfoldable pub reason_message : RejectReason → String
reason_message RejectReason.unknown = "unknown"
reason_message RejectReason.system = "system function error"
reason_message RejectReason.peer = "rejected by peer"
reason_message RejectReason.resource = "resource allocation failure"
reason_message RejectReason.rogue = "incorrect data in handshake"
reason_message RejectReason.backlog = "listener backlog exceeded"
reason_message RejectReason.ipe = "internal program error"
reason_message RejectReason.close = "socket is closing"
reason_message RejectReason.version = "peer version too old"
reason_message RejectReason.rdv_cookie = "rendezvous cookie collision"
reason_message RejectReason.bad_secret = "incorrect passphrase"
reason_message RejectReason.unsecure = "password required or unexpected"
reason_message RejectReason.message_api = "stream/message API conflict"
reason_message RejectReason.congestion = "incompatible congestion controller"
reason_message RejectReason.filter = "incompatible packet filter"
reason_message RejectReason.group = "incompatible group"
reason_message RejectReason.timeout = "connection timeout"
reason_message RejectReason.crypto = "incompatible crypto mode"
