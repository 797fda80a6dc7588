-- ===== src/Bridge/Adding.antt =====
-- srt-transport/src/epoll_bridge.rs: adding one member to a live group (`add_group_member`).
pub mod Once
use bilbycast_libsrt_rs.Shared.{
  ℕ, Bool, true, false, not, ◌&&◌, List, [], ◌∷◌, ◌++◌, Option, none, some, if◌then◌else◌,
}
use bilbycast_libsrt_rs.Protocol.Error.{SrtError, Result, ok, err}
use bilbycast_libsrt_rs.Bridge.Endpoint.{GroupEndpoint}
use bilbycast_libsrt_rs.Bridge.Libsrt.{SocketId, Libsrt, Io, ◌>>=◌, pure, get_state, now as clock}
use bilbycast_libsrt_rs.Bridge.Status.{is_terminal_status, raw_state_to_status, is_connected}
use bilbycast_libsrt_rs.Bridge.Plan.{member_in_flight}
use bilbycast_libsrt_rs.Bridge.Connect.{read_group_rows, connect_group, single, spawned_member}
use bilbycast_libsrt_rs.Bridge.Socket.{SocketState, Sockets, get, put}

-- `.filter(|s| s.is_group && !is_terminal_status(s.last_status))`
abbrev pub live_group : Option SocketState → Option SocketState
live_group none = none
live_group (some st) =
    if st.is_group && not (is_terminal_status st.last_status) then some st else none

module _ (s : Libsrt) where
  -- The member is watched from here on.
  unfoldable pub watch_added :
      SocketId
      → GroupEndpoint
      → SocketState
      → Sockets
      → Result SocketId
      → Io (Result (Unit {0}) × Sockets)
  watch_added id endpoint st sockets (err e) = pure (err e, sockets)
  watch_added id endpoint st sockets (ok member) = do
    now ← clock s
    w ← spawned_member s member endpoint now
    pure (ok tt, put id (record st { watched = st.watched ++ w ∷ [] }) sockets)

  -- One handshake per endpoint: a member in flight with the token is enough.
  unfoldable pub connect_unless_there :
      SocketId
      → GroupEndpoint
      → SocketState
      → Sockets
      → (existing : Option SocketId) → Io (Result (Unit {0}) × Sockets)
  connect_unless_there id endpoint st sockets (some existing) = pure (ok tt, sockets)
  connect_unless_there id endpoint st sockets none = do
    connected ← connect_group s id (endpoint ∷ [])
    watch_added id endpoint st sockets (single connected)

  -- The part of `add_group_member` for a group that the bridge tracks and has not seen break.
  unfoldable pub add_to_live :
      SocketId → GroupEndpoint → Sockets → Option SocketState → Io (Result (Unit {0}) × Sockets)
  add_to_live id endpoint sockets none = pure (err SrtError.connection_lost, sockets)
  add_to_live id endpoint sockets (some st) = do
    raw ← get_state s id
    if is_connected (raw_state_to_status raw)
        then (do
          rows ← read_group_rows s id []
          existing ← member_in_flight s rows endpoint.token []
          connect_unless_there id endpoint st sockets existing)
        else pure (err SrtError.connection_lost, sockets)

  unfoldable pub add_group_member :
      SocketId → GroupEndpoint → Sockets → Io (Result (Unit {0}) × Sockets)
  add_group_member id endpoint sockets =
      add_to_live id endpoint sockets (live_group (get id sockets))
