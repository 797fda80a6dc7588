-- ===== src/Bridge/Events.antt =====
-- srt-transport/src/epoll_bridge.rs: what one readiness event leads to (`process_epoll_events`).
pub mod Group
pub mod Connect
use bilbycast_libsrt_rs.Shared.{
  ℕ, Bool, true, false, ◌&&◌, List, [], ◌∷◌, Option, none, some, if◌then◌else◌,
}
use bilbycast_libsrt_rs.Protocol.Config.{SocketStatus}
use bilbycast_libsrt_rs.Protocol.Error.{ok, err, from_code}
use bilbycast_libsrt_rs.Protocol.Packet.{Bytes}
use bilbycast_libsrt_rs.Bridge.Libsrt.{
  SocketId, Channel, Libsrt, Io, History, ◌>>=◌, ◌>>◌, pure, call, get_state, last_error_code,
  reply_send,
}
use bilbycast_libsrt_rs.Bridge.Status.{is_terminal_status, raw_state_to_status, is_connected}
use bilbycast_libsrt_rs.Bridge.Socket.{SocketState, Sockets, get, put, update_status}
use bilbycast_libsrt_rs.Bridge.Transfer.{handle_send, handle_recv}
use bilbycast_libsrt_rs.Bridge.Accept.{handle_accept}

-- `SRT_EPOLL_EVENT`, its flags apart.
pub record Event : Type 0 where
  pub fd : SocketId
  pub in_flag : Bool
  pub out_flag : Bool
  pub connect_flag : Bool
  pub err_flag : Bool

-- The test for an accept.
abbrev pub is_listening : Option SocketState → Bool
is_listening none = false
is_listening (some st) = st.is_listener

module _ (s : Libsrt) where
  -- `group_err_is_real`
  unfoldable pub group_err_is_real : SocketId → Io Bool
  group_err_is_real group = do
    raw ← get_state s group
    pure (is_terminal_status (raw_state_to_status raw))

  -- The answer to a pending connect, by the state that libsrt gives for the socket.
  unfoldable pub finish_connect :
      SocketId → Sockets → SocketState → Channel → (connected : Bool) → Io Sockets
  finish_connect id sockets st reply true = do
    call (reply_send reply (ok tt))
    st' ← update_status (record st { connect_reply = none }) SocketStatus.connected
    pure (put id st' sockets)
  finish_connect id sockets st reply false = do
    code ← last_error_code s
    call (reply_send reply (err (from_code code)))
    st' ← update_status (record st { connect_reply = none }) SocketStatus.broken
    pure (put id st' sockets)

  -- `state.connect_reply.take()`
  unfoldable pub take_reply : SocketId → Sockets → SocketState → Option Channel → Io Sockets
  take_reply id sockets st none = pure sockets
  take_reply id sockets st (some reply) = do
    raw ← get_state s id
    finish_connect id sockets st reply (is_connected (raw_state_to_status raw))

  unfoldable pub on_connect : SocketId → Sockets → Option SocketState → Io Sockets
  on_connect id sockets none = pure sockets
  on_connect id sockets (some st) = take_reply id sockets st st.connect_reply

  -- What the send channel holds; without one there is nothing to send but the backlog.
  abbrev pub queue_of : Option Channel → Io (List Bytes)
  queue_of none h = ([], h)
  queue_of (some tx) h = (s.queued h tx, h)

  unfoldable pub on_writable : SocketId → Sockets → Option SocketState → Io Sockets
  on_writable id sockets none = pure sockets
  on_writable id sockets (some st) = do
    queue ← queue_of st.send_rx
    (st', rest) ← handle_send s id st queue
    pure (put id st' sockets)

  unfoldable pub on_readable : SocketId → Sockets → Io (Unit {0})
  on_readable id sockets h =
      let (unread, h') = handle_recv s id sockets (s.incoming h id) h in (tt, h')

  -- An error on a group counts only where the group's own status agrees.
  unfoldable pub counts_as_broken : SocketId → (is_group : Bool) → Io Bool
  counts_as_broken id true = group_err_is_real id
  counts_as_broken id false = pure true

  unfoldable pub break_socket : SocketId → Sockets → SocketState → (counts : Bool) → Io Sockets
  break_socket id sockets st true = do
    st' ← update_status st SocketStatus.broken
    pure (put id st' sockets)
  break_socket id sockets st false = pure sockets

  unfoldable pub on_error : SocketId → Sockets → Option SocketState → Io Sockets
  on_error id sockets none = pure sockets
  on_error id sockets (some st) = do
    counts ← counts_as_broken id st.is_group
    break_socket id sockets st counts

  -- One turn of the loop over the events.
  unfoldable pub process_event : Event → Sockets → Io Sockets
  process_event ev sockets =
      if is_listening (get ev.fd sockets) && ev.in_flag
      then (do handle_accept s ev.fd sockets; pure sockets)
      else (do
        sockets1 ←
            (if ev.connect_flag then on_connect ev.fd sockets (get ev.fd sockets) else pure sockets)
        if ev.in_flag then on_readable ev.fd sockets1 else pure tt
        sockets2 ←
            (if ev.out_flag then on_writable ev.fd sockets1 (get ev.fd sockets1) else pure sockets1)
        if ev.err_flag then on_error ev.fd sockets2 (get ev.fd sockets2) else pure sockets2)

  unfoldable pub process_epoll_events : List Event → Sockets → Io Sockets
  process_epoll_events [] sockets = pure sockets
  process_epoll_events (ev ∷ events) sockets = do
    sockets' ← process_event ev sockets
    process_epoll_events events sockets'
