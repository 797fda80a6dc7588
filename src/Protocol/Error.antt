-- ===== src/Protocol/Error.antt =====
-- srt-protocol/src/error.rs, `SrtError` and `ErrorKind`: libsrt's error codes as an enum.
use Prim.Native.String.{String}
use bilbycast_libsrt_rs.Shared.{
  ℕ, ◌/◌, List, [], ◌∷◌, ℤ, pos, negsuc, eqb, is_nonneg, pos_part, ◌==◌, if◌then◌else◌,
}

pub data ErrorKind : Type 0 where
  success setup connection system_resource file_system not_supported again peer_error unknown :
      ErrorKind

pub data SrtError : Type 0 where
  success connection_setup no_server connection_rejected socket_fail security_fail socket_closed
        connection_fail connection_lost no_connection resource thread no_buffer sys_object file
        invalid_read_offset read_permission invalid_write_offset write_permission invalid_operation
        bound_socket connected_socket invalid_param invalid_socket unbound_socket no_listen
        rendezvous_no_server rendezvous_unbound invalid_message_api invalid_buffer_api
        duplicate_listen large_message invalid_poll_id poll_empty bind_conflict async_fail
        async_send async_recv timeout congestion peer_error unknown :
      SrtError

-- `code` and `*self as i32`: the discriminant.
unfoldable pub code : SrtError → ℤ
code SrtError.success = pos 0
code SrtError.connection_setup = pos 1000
code SrtError.no_server = pos 1001
code SrtError.connection_rejected = pos 1002
code SrtError.socket_fail = pos 1003
code SrtError.security_fail = pos 1004
code SrtError.socket_closed = pos 1005
code SrtError.connection_fail = pos 2000
code SrtError.connection_lost = pos 2001
code SrtError.no_connection = pos 2002
code SrtError.resource = pos 3000
code SrtError.thread = pos 3001
code SrtError.no_buffer = pos 3002
code SrtError.sys_object = pos 3003
code SrtError.file = pos 4000
code SrtError.invalid_read_offset = pos 4001
code SrtError.read_permission = pos 4002
code SrtError.invalid_write_offset = pos 4003
code SrtError.write_permission = pos 4004
code SrtError.invalid_operation = pos 5000
code SrtError.bound_socket = pos 5001
code SrtError.connected_socket = pos 5002
code SrtError.invalid_param = pos 5003
code SrtError.invalid_socket = pos 5004
code SrtError.unbound_socket = pos 5005
code SrtError.no_listen = pos 5006
code SrtError.rendezvous_no_server = pos 5007
code SrtError.rendezvous_unbound = pos 5008
code SrtError.invalid_message_api = pos 5009
code SrtError.invalid_buffer_api = pos 5010
code SrtError.duplicate_listen = pos 5011
code SrtError.large_message = pos 5012
code SrtError.invalid_poll_id = pos 5013
code SrtError.poll_empty = pos 5014
code SrtError.bind_conflict = pos 5015
code SrtError.async_fail = pos 6000
code SrtError.async_send = pos 6001
code SrtError.async_recv = pos 6002
code SrtError.timeout = pos 6003
code SrtError.congestion = pos 6004
code SrtError.peer_error = pos 7000
code SrtError.unknown = negsuc 0

-- The category of a thousand.
abbrev kind_of : ℕ → ErrorKind
kind_of n =
    if n == 0
    then ErrorKind.success
    else if n == 1
    then ErrorKind.setup
    else if n == 2
    then ErrorKind.connection
    else if n == 3
    then ErrorKind.system_resource
    else if n == 4
    then ErrorKind.file_system
    else if n == 5
    then ErrorKind.not_supported
    else if n == 6
    then ErrorKind.again
    else if n == 7
    then ErrorKind.peer_error
    else ErrorKind.unknown

-- The match of `kind` on the code, a category for each thousand.
unfoldable pub kind : SrtError → ErrorKind
unfolding code
kind e = if is_nonneg (code e) then kind_of (pos_part (code e) / 1000) else ErrorKind.unknown

-- The arms of the match of `from_code`, in order.
unfoldable pub code_arms : List (ℤ × SrtError)
code_arms =
    (pos 0, SrtError.success)
    ∷ (pos 1000, SrtError.connection_setup)
    ∷ (pos 1001, SrtError.no_server)
    ∷ (pos 1002, SrtError.connection_rejected)
    ∷ (pos 1003, SrtError.socket_fail)
    ∷ (pos 1004, SrtError.security_fail)
    ∷ (pos 1005, SrtError.socket_closed)
    ∷ (pos 2000, SrtError.connection_fail)
    ∷ (pos 2001, SrtError.connection_lost)
    ∷ (pos 2002, SrtError.no_connection)
    ∷ (pos 3000, SrtError.resource)
    ∷ (pos 3001, SrtError.thread)
    ∷ (pos 3002, SrtError.no_buffer)
    ∷ (pos 3003, SrtError.sys_object)
    ∷ (pos 4000, SrtError.file)
    ∷ (pos 4001, SrtError.invalid_read_offset)
    ∷ (pos 4002, SrtError.read_permission)
    ∷ (pos 4003, SrtError.invalid_write_offset)
    ∷ (pos 4004, SrtError.write_permission)
    ∷ (pos 5000, SrtError.invalid_operation)
    ∷ (pos 5001, SrtError.bound_socket)
    ∷ (pos 5002, SrtError.connected_socket)
    ∷ (pos 5003, SrtError.invalid_param)
    ∷ (pos 5004, SrtError.invalid_socket)
    ∷ (pos 5005, SrtError.unbound_socket)
    ∷ (pos 5006, SrtError.no_listen)
    ∷ (pos 5007, SrtError.rendezvous_no_server)
    ∷ (pos 5008, SrtError.rendezvous_unbound)
    ∷ (pos 5009, SrtError.invalid_message_api)
    ∷ (pos 5010, SrtError.invalid_buffer_api)
    ∷ (pos 5011, SrtError.duplicate_listen)
    ∷ (pos 5012, SrtError.large_message)
    ∷ (pos 5013, SrtError.invalid_poll_id)
    ∷ (pos 5014, SrtError.poll_empty)
    ∷ (pos 5015, SrtError.bind_conflict)
    ∷ (pos 6000, SrtError.async_fail)
    ∷ (pos 6001, SrtError.async_send)
    ∷ (pos 6002, SrtError.async_recv)
    ∷ (pos 6003, SrtError.timeout)
    ∷ (pos 6004, SrtError.congestion)
    ∷ (pos 7000, SrtError.peer_error)
    ∷ []

-- The first arm whose code fits, `dflt` where none does: a Rust `match` on an integer.
unfoldable pub match_code {ℓ} : {A : Type ℓ} → List (ℤ × A) → A → ℤ → A
match_code [] dflt c = dflt
match_code ((k, a) ∷ arms) dflt c = if eqb c k then a else match_code arms dflt c

unfoldable pub from_code : ℤ → SrtError
unfolding code_arms match_code
from_code c = match_code code_arms SrtError.unknown c

-- The text that `Display` writes.
unfoldable pub message : SrtError → String
message SrtError.success = "success"
message SrtError.connection_setup = "connection setup failure"
message SrtError.no_server = "connection timed out"
message SrtError.connection_rejected = "connection rejected by peer"
message SrtError.socket_fail = "unable to create/configure SRT socket"
message SrtError.security_fail = "encryption failure"
message SrtError.socket_closed = "socket closed during operation"
message SrtError.connection_fail = "connection failure"
message SrtError.connection_lost = "connection lost"
message SrtError.no_connection = "no connection"
message SrtError.resource = "system resource failure"
message SrtError.thread = "unable to create thread"
message SrtError.no_buffer = "no memory space available"
message SrtError.sys_object = "unable to create system object"
message SrtError.file = "file system failure"
message SrtError.invalid_read_offset = "cannot seek read position"
message SrtError.read_permission = "failure in read"
message SrtError.invalid_write_offset = "cannot seek write position"
message SrtError.write_permission = "failure in write"
message SrtError.invalid_operation = "operation not supported"
message SrtError.bound_socket = "socket already bound"
message SrtError.connected_socket = "socket already connected"
message SrtError.invalid_param = "invalid parameter"
message SrtError.invalid_socket = "invalid socket ID"
message SrtError.unbound_socket = "socket not bound"
message SrtError.no_listen = "socket not in listening state"
message SrtError.rendezvous_no_server = "rendezvous connection mode with non-matching sockets"
message SrtError.rendezvous_unbound = "rendezvous connection but unbound socket"
message SrtError.invalid_message_api = "message API not valid in stream mode"
message SrtError.invalid_buffer_api = "buffer API not valid in message mode"
message SrtError.duplicate_listen = "another socket already listening on this port"
message SrtError.large_message = "message too large for the configured payload size"
message SrtError.invalid_poll_id = "invalid epoll ID"
message SrtError.poll_empty = "epoll container empty"
message SrtError.bind_conflict = "port already in use"
message SrtError.async_fail = "non-blocking call failure"
message SrtError.async_send = "no buffer space available for sending"
message SrtError.async_recv = "no data available for reading"
message SrtError.timeout = "operation timed out"
message SrtError.congestion = "congestion control"
message SrtError.peer_error = "error from peer"
message SrtError.unknown = "unknown error"

-- `Result<T>`: every fallible operation fails with an `SrtError`.
pub data Result {ℓ} (A : Type ℓ) : Type ℓ where
  ok : A → Result A
  err : SrtError → Result A
