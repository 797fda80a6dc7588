-- ===== src/Bridge/Opening.antt =====
-- srt-transport/src/epoll_bridge.rs: sockets opened, bound, listening and connecting (`CreateSocket`,
-- `Bind`, `Listen` and `Connect` of `process_command`).
pub mod FailClosed
use bilbycast_libsrt_rs.Shared.{
  ℕ, ℤ, Bool, true, false, Option, none, some, is_nonneg, if◌then◌else◌,
}
use bilbycast_libsrt_rs.Protocol.Config.{SocketStatus, SrtConfig}
use bilbycast_libsrt_rs.Protocol.Error.{SrtError, Result, ok, err, from_code}
use bilbycast_libsrt_rs.Bridge.Endpoint.{SocketAddr}
use bilbycast_libsrt_rs.Bridge.SockOpt.{srto_rcvsyn, srto_sndsyn}
use bilbycast_libsrt_rs.Bridge.Libsrt.{
  SocketId, RawState, Channel, Libsrt, Io, ◌>>=◌, ◌>>◌, pure, call, ask, get_state, last_error_code,
  srt_create_socket, srt_bind, srt_listen_callback, srt_listen, srt_connect, srt_epoll_add_usock,
  id_reply, reply_send, srts_connected, srts_connecting, srts_opened, srts_init,
}
use bilbycast_libsrt_rs.Bridge.Options.{set_bool_opt, apply_config}
use bilbycast_libsrt_rs.Bridge.Socket.{SocketState, Sockets, get, put, update_status}
use bilbycast_libsrt_rs.Bridge.Release.{close_and_release}
use bilbycast_libsrt_rs.Bridge.Registering.{drop_state}

-- The blocking modes off, then the configuration.
unfoldable pub configure : SocketId → SrtConfig → Io (Unit {0})
configure sock config = do
  set_bool_opt sock srto_rcvsyn false
  set_bool_opt sock srto_sndsyn false
  apply_config sock config

-- `update_status` of the socket's state, if it is tracked.
unfoldable pub update_tracked : SocketId → SocketStatus → Sockets → Option SocketState → Io Sockets
update_tracked id status sockets none = pure sockets
update_tracked id status sockets (some st) = do
  st' ← update_status st status
  pure (put id st' sockets)

module _ (s : Libsrt) where
  unfoldable pub last_srt_error : Io SrtError
  last_srt_error = do error ← last_error_code s; pure (from_code error)

  unfoldable pub create_socket : SrtConfig → Channel → Io (Unit {0})
  create_socket config reply = do
    sock ← ask s.create_socket srt_create_socket
    if is_nonneg sock
        then (do configure sock config; call (id_reply reply (ok sock)))
        else (do error ← last_srt_error; call (id_reply reply (err error)))

  -- libsrt's error where a call failed.
  unfoldable pub checked : (ret : ℤ) → Io (Result (Unit {0}))
  checked ret =
      if is_nonneg ret then pure (ok tt) else (do error ← last_srt_error; pure (err error))

  unfoldable pub bind_socket : SocketId → SocketAddr → Io (Result (Unit {0}))
  bind_socket sock addr = do
    ret ← ask (λ h. s.bind h sock addr) (λ ret. srt_bind sock addr)
    checked ret

  -- libsrt is given the slot of the access control, where there is one.
  unfoldable pub arm_hook : SocketId → Option ℕ → Io (Result (Unit {0}))
  arm_hook listener none = pure (ok tt)
  arm_hook listener (some slot) = do
    ret ← ask (λ h. s.listen_callback h listener slot) (srt_listen_callback listener slot)
    checked ret

  abbrev pub hook_of : Option SocketState → Option ℕ
  hook_of none = none
  hook_of (some st) = st.access_control

  unfoldable pub register_listen_callback : SocketId → Sockets → Io (Result (Unit {0}))
  register_listen_callback listener sockets = arm_hook listener (hook_of (get listener sockets))

  -- Either failure of `Listen` closes the socket.
  unfoldable pub give_up : SocketId → Sockets → SrtError → Channel → Io Sockets
  give_up id sockets error reply = do
    (released, sockets') ← close_and_release id sockets
    drop_state id released
    call (reply_send reply (err error))
    pure sockets'

  -- The listener is polled, marked and announced.
  unfoldable pub start_listening : SocketId → Sockets → Option SocketState → Io Sockets
  start_listening id sockets none = do call (srt_epoll_add_usock id); pure sockets
  start_listening id sockets (some st) = do
    call (srt_epoll_add_usock id)
    st' ← update_status (record st { is_listener = true }) SocketStatus.listening
    pure (put id st' sockets)

  unfoldable pub listen_armed : SocketId → ℤ → Channel → Sockets → Result (Unit {0}) → Io Sockets
  listen_armed id backlog reply sockets (err error) = give_up id sockets error reply
  listen_armed id backlog reply sockets (ok armed) = do
    ret ← ask (λ h. s.listen h id backlog) (srt_listen id backlog)
    if is_nonneg ret
        then (do
          sockets' ← start_listening id sockets (get id sockets)
          call (reply_send reply (ok tt))
          pure sockets')
        else (do error ← last_srt_error; give_up id sockets error reply)

  unfoldable pub listen : SocketId → ℤ → Channel → Sockets → Io Sockets
  listen id backlog reply sockets = do
    armed ← register_listen_callback id sockets
    listen_armed id backlog reply sockets armed

  -- A connect whose error is not that of a handshake under way.
  abbrev pub is_async_fail : SrtError → Bool
  is_async_fail error = elim error [ SrtError.async_fail ↦ true | _ ↦ false ]

  -- The connect is held until the handshake ends.
  unfoldable pub hold_connect : SocketId → Channel → Sockets → Option SocketState → Io Sockets
  hold_connect id reply sockets none = pure sockets
  hold_connect id reply sockets (some st) = do
    st' ← update_status (record st { connect_reply = some reply }) SocketStatus.connecting
    pure (put id st' sockets)

  -- The dispatch on the socket's state: connected, its handshake under way, or dead.
  unfoldable pub dispatch_connect : SocketId → Channel → Sockets → RawState → Io Sockets
  dispatch_connect id reply sockets srts_connected = do
    call (srt_epoll_add_usock id)
    sockets' ← update_tracked id SocketStatus.connected sockets (get id sockets)
    call (reply_send reply (ok tt))
    pure sockets'
  dispatch_connect id reply sockets srts_connecting = do
    call (srt_epoll_add_usock id)
    hold_connect id reply sockets (get id sockets)
  dispatch_connect id reply sockets srts_opened = do
    call (srt_epoll_add_usock id)
    hold_connect id reply sockets (get id sockets)
  dispatch_connect id reply sockets srts_init = do
    call (srt_epoll_add_usock id)
    hold_connect id reply sockets (get id sockets)
  dispatch_connect id reply sockets _ = do
    error ← last_srt_error
    call (reply_send reply (err error))
    pure sockets

  -- After `srt_connect`: only a failure other than `AsyncFail` ends the connect here.
  unfoldable pub after_connect :
      SocketId → Channel → Sockets → (refused : Option SrtError) → Io Sockets
  after_connect id reply sockets (some error) = do call (reply_send reply (err error)); pure sockets
  after_connect id reply sockets none = do
    raw ← get_state s id
    dispatch_connect id reply sockets raw

  unfoldable pub connect_refusal : (ret : ℤ) → Io (Option SrtError)
  connect_refusal ret =
      if is_nonneg ret
      then pure none
      else (do error ← last_srt_error; pure (if is_async_fail error then none else some error))

  unfoldable pub connect : SocketId → SocketAddr → Channel → Sockets → Io Sockets
  connect id addr reply sockets = do
    ret ← ask (λ h. s.connect h id addr) (λ ret. srt_connect id addr)
    refused ← connect_refusal ret
    after_connect id reply sockets refused
