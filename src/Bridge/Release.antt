-- ===== src/Bridge/Release.antt =====
-- srt-transport/src/epoll_bridge.rs: how a socket is given up (`close_and_release`, `cleanup_zombies`,
-- `cleanup`).
pub mod Order
pub mod Drops
pub mod Sweep
use bilbycast_libsrt_rs.Shared.{
  Bool, true, false, not, ◌&&◌, ◌||◌, List, [], ◌∷◌, Option, none, some, if◌then◌else◌,
}
use bilbycast_libsrt_rs.Protocol.Error.{SrtError, err}
use bilbycast_libsrt_rs.Bridge.Libsrt.{
  SocketId, Channel, Libsrt, Io, ◌>>=◌, ◌>>◌, pure, call, close, channel_closed,
  srt_epoll_remove_usock, srt_epoll_release, reply_send, state_drop,
}
use bilbycast_libsrt_rs.Bridge.Status.{is_terminal_status, is_init}
use bilbycast_libsrt_rs.Bridge.Socket.{SocketState, Sockets, get, remove}

-- A group that never joined the epoll.
abbrev pub never_polled : Option SocketState → Bool
never_polled none = false
never_polled (some st) = st.is_group && is_init st.last_status

unfoldable pub close_and_release : SocketId → Sockets → Io (Option SocketState × Sockets)
close_and_release id sockets = do
  if never_polled (get id sockets) then pure tt else call (srt_epoll_remove_usock id)
  close id
  pure (get id sockets, remove id sockets)

-- The answer to a connect that is still pending, if one is.
abbrev pub answer : Option Channel → SrtError → Io (Unit {0})
answer none e = pure tt
answer (some reply) e = call (reply_send reply (err e))

-- `recv_tx.is_none_or(|tx| tx.is_closed())`
abbrev pub tokio_side_gone : Libsrt → Option Channel → Io Bool
tokio_side_gone s none = pure true
tokio_side_gone s (some tx) = channel_closed s tx

-- The tests of the first loop of `cleanup_zombies` on the state alone.
abbrev pub may_be_zombie : SocketState → Bool
may_be_zombie st = is_terminal_status st.last_status && not (st.is_listener || st.is_group)

-- The released state: its pending connect is answered, and it is dropped.
abbrev pub drop_released : SocketId → Option SocketState → Io (Unit {0})
drop_released id none = pure tt
drop_released id (some st) = do
  answer st.connect_reply SrtError.connection_lost
  call (state_drop id)

module _ (s : Libsrt) where
  unfoldable pub zombies : Sockets → Io (List SocketId)
  zombies [] = pure []
  zombies ((id, st) ∷ m) =
      if may_be_zombie st
      then (do
        gone ← tokio_side_gone s st.recv_tx
        rest ← zombies m
        pure (if gone then id ∷ rest else rest))
      else zombies m

unfoldable pub release_all : List SocketId → Sockets → Io Sockets
release_all [] sockets = pure sockets
release_all (id ∷ ids) sockets = do
  (released, sockets') ← close_and_release id sockets
  drop_released id released
  release_all ids sockets'

unfoldable pub cleanup_zombies : Libsrt → Sockets → Io Sockets
cleanup_zombies s sockets = do ids ← zombies s sockets; release_all ids sockets

-- The loop of `cleanup` over the drained map.
unfoldable pub close_all : Sockets → Io (Unit {0})
close_all [] = pure tt
close_all ((id, st) ∷ m) = do
  call (srt_epoll_remove_usock id)
  close id
  answer st.connect_reply SrtError.socket_closed
  call (state_drop id)
  close_all m

unfoldable pub cleanup : Sockets → Io (Unit {0})
cleanup sockets = do close_all sockets; call srt_epoll_release
