-- ===== src/Bridge/Registering.antt =====
-- srt-transport/src/epoll_bridge.rs: the sockets that the I/O thread tracks (`RegisterSocket`,
-- `RegisterListener` and `Close` of `process_command`).
use bilbycast_libsrt_rs.Shared.{
  ℕ, Bool, true, false, [], ◌∷◌, Option, none, some, eqb, if◌then◌else◌,
}
use bilbycast_libsrt_rs.Protocol.Config.{SocketStatus}
use bilbycast_libsrt_rs.Protocol.Error.{SrtError}
use bilbycast_libsrt_rs.Bridge.Libsrt.{
  SocketId, Channel, Libsrt, Io, ◌>>=◌, ◌>>◌, pure, call, get_state, state_drop, slot_drop,
}
use bilbycast_libsrt_rs.Bridge.Status.{raw_state_to_status, same_status}
use bilbycast_libsrt_rs.Bridge.Socket.{SocketState, Sockets, get, update_status}
use bilbycast_libsrt_rs.Bridge.Release.{close_and_release, answer}

-- `HashMap::insert`: the entry of the key, if it has one, is replaced.
unfoldable pub insert : SocketId → SocketState → Sockets → Sockets
insert id v [] = (id, v) ∷ []
insert id v ((k, u) ∷ m) = if eqb k id then (k, v) ∷ m else (k, u) ∷ insert id v m

-- The state of a socket that has just become known.
unfoldable pub new_state : (is_listener is_group backup : Bool) → SocketState
new_state is_listener is_group backup = record {
  recv_tx = none;
  send_rx = none;
  send_backlog = [];
  status_tx = none;
  accept_tx = none;
  access_control = none;
  is_listener = is_listener;
  is_group = is_group;
  backup = backup;
  last_status = SocketStatus.init;
  connect_reply = none;
  watched = [];
}

-- `sockets.entry(id).or_insert_with(...)`, the state it gives.
abbrev pub or_new : Option SocketState → SocketState → SocketState
or_new none fresh = fresh
or_new (some st) fresh = st

-- A state dropped as it is: a caller whose connect it still holds sees its channel close.
abbrev pub drop_state : SocketId → Option SocketState → Io (Unit {0})
drop_state id none = pure tt
drop_state id (some st) = call (state_drop id)

-- An access-control slot replaced while its state lives.
abbrev pub drop_slot : SocketId → Option ℕ → Io (Unit {0})
drop_slot id none = pure tt
drop_slot id (some slot) = call (slot_drop id)

-- The state that `Close` released.
abbrev pub answer_closed : SocketId → Option SocketState → Io (Unit {0})
answer_closed id none = pure tt
answer_closed id (some st) = do answer st.connect_reply SrtError.socket_closed; call (state_drop id)

-- The access control of a listener, where the command brings one.
abbrev pub with_access_control : SocketId → SocketState → Option ℕ → Io SocketState
with_access_control id st none = pure st
with_access_control id st (some ac) = do
  drop_slot id st.access_control
  pure (record st { access_control = some ac })

unfoldable pub register_listener : SocketId → Channel → Option ℕ → Sockets → Io Sockets
register_listener id accept_tx access_control sockets = do
  st ←
      with_access_control id
        (record (or_new (get id sockets) (new_state true false false)) {
          accept_tx = some accept_tx;
        })
        access_control
  pure (insert id st sockets)

-- A pending connect of a closed socket is answered.
unfoldable pub close_command : SocketId → Sockets → Io Sockets
close_command id sockets = do
  (released, sockets') ← close_and_release id sockets
  answer_closed id released
  pure sockets'

module _ (s : Libsrt) where
  -- The state that libsrt gives a socket when it is registered; a group's status starts at its connect.
  unfoldable pub correct_status : SocketId → SocketState → (is_group : Bool) → Io SocketState
  correct_status id st true = pure st
  correct_status id st false = do
    raw ← get_state s id
    if same_status (raw_state_to_status raw) st.last_status
        then pure st
        else update_status st (raw_state_to_status raw)

  unfoldable pub register_socket :
      SocketId → (recv_tx send_rx status_tx : Channel) → Sockets → Io Sockets
  register_socket id recv_tx send_rx status_tx sockets =
      let st : SocketState = record (or_new (get id sockets) (new_state false false false)) {
        recv_tx = some recv_tx;
        send_rx = some send_rx;
        status_tx = some status_tx;
      } in
      (do st' ← correct_status id st st.is_group; pure (insert id st' sockets))
