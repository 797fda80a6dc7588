-- ===== src/Handles/Listener.antt =====
-- srt-transport/src/listener.rs: `SrtListenerBuilder::bind`, `SrtListener::accept` and the drop of a
-- listener.
use bilbycast_libsrt_rs.Shared.{Bool, if◌then◌else◌, List, [], ◌∷◌, Option, none, some}
use bilbycast_libsrt_rs.Protocol.Error.{SrtError, Result, ok, err}
use bilbycast_libsrt_rs.Bridge.Endpoint.{SocketAddr}
use bilbycast_libsrt_rs.Bridge.Libsrt.{SocketId, Channel}
use bilbycast_libsrt_rs.Bridge.Command.{IoCommand}
use bilbycast_libsrt_rs.Handles.Builders.{SrtListenerBuilder}
use bilbycast_libsrt_rs.Handles.Socket.{SrtSocket, from_accepted}
use bilbycast_libsrt_rs.Handles.Task.{
  Replies, Task, ◌>>=◌, ◌>>◌, pure, send_command, new_channel, await, or_socket_fail, or_none,
  unwrap_or,
}

pub record SrtListener : Type 0 where
  pub id : SocketId
  pub accept_rx : Channel
  pub local_addr : SocketAddr

-- The guard of a connection that has been taken and has no socket yet.
pub record Unclaimed : Type 0 where
  pub id : SocketId

-- `std::mem::forget`: a guard that is forgotten is not dropped.
unfoldable pub claimed : Unclaimed → Option Unclaimed
claimed guard = none

-- The drop of the guard at the end of its scope, where it was not forgotten.
unfoldable pub drop_unclaimed : Option Unclaimed → Task (Unit {0})
drop_unclaimed none = pure tt
drop_unclaimed (some guard) = send_command (IoCommand.close guard.id)

-- `if sock.is_ok() { unclaimed.claimed(); }`
unfoldable pub claim : Unclaimed → Result SrtSocket → Option Unclaimed
claim guard (ok sock) = claimed guard
claim guard (err e) = some guard

module _ (r : Replies) where
  unfoldable pub bind_listened :
      SocketId → (accept_rx : Channel) → SocketAddr → Result (Unit {0}) → Task (Result SrtListener)
  bind_listened id accept_rx addr (err e) = pure (err e)
  bind_listened id accept_rx addr (ok listening) = do
    reply ← new_channel
    send_command (IoCommand.get_local_addr id reply)
    local ← await r.addr_reply reply
    pure (
        ok (record { id = id; accept_rx = accept_rx; local_addr = unwrap_or (or_none local) addr }))

  unfoldable pub bind_bound :
      SrtListenerBuilder
      → SocketId
      → (accept_rx : Channel) → SocketAddr
      → Result (Unit {0})
      → Task (Result SrtListener)
  bind_bound b id accept_rx addr (err e) = pure (err e)
  bind_bound b id accept_rx addr (ok bound) = do
    reply ← new_channel
    send_command (IoCommand.listen id b.backlog reply)
    listened ← await r.unit_reply reply
    bind_listened id accept_rx addr (or_socket_fail listened)

  unfoldable pub bind_created :
      SrtListenerBuilder → SocketAddr → Result SocketId → Task (Result SrtListener)
  bind_created b addr (err e) = pure (err e)
  bind_created b addr (ok id) = do
    accept ← new_channel
    send_command (IoCommand.register_listener id accept b.access_control)
    recv ← new_channel
    send ← new_channel
    status ← new_channel
    send_command (IoCommand.register_socket id recv send status)
    reply ← new_channel
    send_command (IoCommand.bind id addr reply)
    bound ← await r.unit_reply reply
    bind_bound b id accept addr (or_socket_fail bound)

  unfoldable pub bind : SrtListenerBuilder → SocketAddr → Task (Result SrtListener)
  bind b addr = do
    reply ← new_channel
    send_command (IoCommand.create_socket b.config reply)
    created ← await r.id_reply reply
    bind_created b addr (or_socket_fail created)

  -- An `accept` that has taken a connection, dropped while the socket is being built, in which case there
  -- is no socket, or run to its end. `from_accepted` sends all its commands before its first await, so a
  -- drop at any await finds them sent.
  unfoldable pub accept_taken : SocketId → (abandoned : Bool) → Task (Option (Result SrtSocket))
  accept_taken id abandoned = do
    let unclaimed : Unclaimed = record { id = id }
    built ← from_accepted r id
    drop_unclaimed (if abandoned then some unclaimed else claim unclaimed built)
    pure (if abandoned then none else some built)

  unfoldable pub accept_from :
      (abandoned : Bool) → Option SocketId → Task (Option (Result SrtSocket))
  accept_from abandoned none = pure (some (err SrtError.socket_closed))
  accept_from abandoned (some id) = accept_taken id abandoned

  unfoldable pub accept : (abandoned : Bool) → Task (Option (Result SrtSocket))
  accept abandoned h = accept_from abandoned (r.accepted h) h

-- The loop of the drop over what waits in the accept channel.
unfoldable pub close_waiting : List SocketId → Task (Unit {0})
close_waiting [] = pure tt
close_waiting (id ∷ ids) = do send_command (IoCommand.close id); close_waiting ids

unfoldable pub drop_listener : SrtListener → (waiting : List SocketId) → Task (Unit {0})
drop_listener listener waiting = do
  send_command (IoCommand.close listener.id)
  close_waiting waiting
