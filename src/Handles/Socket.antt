-- ===== src/Handles/Socket.antt =====
-- srt-transport/src/socket.rs: `SrtSocketBuilder::connect`, `SrtSocket::from_accepted`, `close` and the
-- drop of a socket.
use bilbycast_libsrt_rs.Shared.{true, ℕ, ◌+◌, [], Option, none, some, Text, from_secs}
use bilbycast_libsrt_rs.Protocol.Error.{SrtError, Result, ok, err}
use bilbycast_libsrt_rs.Bridge.Endpoint.{SocketAddr}
use bilbycast_libsrt_rs.Bridge.Libsrt.{SocketId, Channel}
use bilbycast_libsrt_rs.Bridge.Command.{IoCommand}
use bilbycast_libsrt_rs.Handles.Builders.{SrtSocketBuilder, rendezvous, bind_to}
use bilbycast_libsrt_rs.Handles.Task.{
  Timed, elapsed, dropped, answered, Replies, Task, ◌>>=◌, ◌>>◌, pure, send_command, new_channel,
  await, or_socket_fail, or_none, unwrap_or, unspecified,
}

pub record SrtSocket : Type 0 where
  pub id : SocketId
  pub send_tx : Channel
  pub recv_rx : Channel
  pub status_rx : Channel
  pub local_addr : SocketAddr
  pub peer_addr : Option SocketAddr
  pub stream_id : Text

module _ (r : Replies) where
  -- `if let Some(bind_addr) = self.bind_addr { ... }`
  unfoldable pub bind_first : SocketId → Option SocketAddr → Task (Result (Unit {0}))
  bind_first id none = pure (ok tt)
  bind_first id (some addr) = do
    reply ← new_channel
    send_command (IoCommand.bind id addr reply)
    bound ← await r.unit_reply reply
    pure (or_socket_fail bound)

  -- The outcome of the connect within its deadline.
  abbrev pub connect_result : Timed → Result (Unit {0})
  connect_result (answered result) = result
  connect_result dropped = err SrtError.socket_fail
  connect_result elapsed = err SrtError.timeout

  -- The connect after the bind, within two seconds more than libsrt's own timeout.
  unfoldable pub connect_bound :
      SocketId → SocketAddr → (connect_timeout : ℕ) → Result (Unit {0}) → Task (Result (Unit {0}))
  connect_bound id remote connect_timeout (err e) = pure (err e)
  connect_bound id remote connect_timeout (ok bound) = do
    reply ← new_channel
    send_command (IoCommand.connect id remote reply)
    waited ← await (λ h c. r.timed_reply h c (connect_timeout + from_secs 2)) reply
    pure (connect_result waited)

  -- A failure closes the socket; else its addresses are read.
  unfoldable pub finish_connect :
      SocketId
      → (send_tx recv_rx status_rx : Channel) → Text
      → Result (Unit {0})
      → Task (Result SrtSocket)
  finish_connect id send_tx recv_rx status_rx stream_id (err e) = do
    send_command (IoCommand.close id)
    pure (err e)
  finish_connect id send_tx recv_rx status_rx stream_id (ok connected) = do
    local_reply ← new_channel
    peer_reply ← new_channel
    send_command (IoCommand.get_local_addr id local_reply)
    send_command (IoCommand.get_peer_addr id peer_reply)
    local ← await r.addr_reply local_reply
    peer ← await r.addr_reply peer_reply
    pure (
        ok (record {
          id = id;
          send_tx = send_tx;
          recv_rx = recv_rx;
          status_rx = status_rx;
          local_addr = unwrap_or (or_none local) unspecified;
          peer_addr = or_none peer;
          stream_id = stream_id;
        }))

  -- The part of `connect` after the socket is created.
  unfoldable pub connect_created :
      SrtSocketBuilder → SocketAddr → Result SocketId → Task (Result SrtSocket)
  connect_created b remote (err e) = pure (err e)
  connect_created b remote (ok id) = do
    recv ← new_channel
    send ← new_channel
    status ← new_channel
    send_command (IoCommand.register_socket id recv send status)
    bound ← bind_first id b.bind_addr
    connected ← connect_bound id remote b.config.connect_timeout bound
    finish_connect id send recv status b.config.stream_id connected

  unfoldable pub connect : SrtSocketBuilder → SocketAddr → Task (Result SrtSocket)
  connect b remote = do
    reply ← new_channel
    send_command (IoCommand.create_socket b.config reply)
    created ← await r.id_reply reply
    connect_created b remote (or_socket_fail created)

  unfoldable pub connect_rendezvous :
      SrtSocketBuilder → (local remote : SocketAddr) → Task (Result SrtSocket)
  connect_rendezvous b local remote = connect (bind_to (rendezvous b true) local) remote

  abbrev pub text_or_empty : Option Text → Text
  text_or_empty none = []
  text_or_empty (some t) = t

  unfoldable pub from_accepted : SocketId → Task (Result SrtSocket)
  from_accepted id = do
    recv ← new_channel
    send ← new_channel
    status ← new_channel
    send_command (IoCommand.register_socket id recv send status)
    local_reply ← new_channel
    peer_reply ← new_channel
    sid_reply ← new_channel
    send_command (IoCommand.get_local_addr id local_reply)
    send_command (IoCommand.get_peer_addr id peer_reply)
    send_command (IoCommand.get_stream_id id sid_reply)
    local ← await r.addr_reply local_reply
    peer ← await r.addr_reply peer_reply
    stream_id ← await r.text_reply sid_reply
    pure (
        ok (record {
          id = id;
          send_tx = send;
          recv_rx = recv;
          status_rx = status;
          local_addr = unwrap_or (or_none local) unspecified;
          peer_addr = or_none peer;
          stream_id = text_or_empty stream_id;
        }))

-- `SrtSocket::close`, and its drop.
unfoldable pub close_socket : SrtSocket → Task (Unit {0})
close_socket sock = send_command (IoCommand.close sock.id)
