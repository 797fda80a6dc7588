-- ===== src/Bridge/Accept.antt =====
-- srt-transport/src/epoll_bridge.rs: taking one connection from a listener (`handle_accept`).
pub mod Owner
use bilbycast_libsrt_rs.Shared.{Bool, true, false, Option, none, some, is_nonneg, if◌then◌else◌}
use bilbycast_libsrt_rs.Bridge.SockOpt.{srto_rcvsyn, srto_sndsyn}
use bilbycast_libsrt_rs.Bridge.Options.{set_bool_opt}
use bilbycast_libsrt_rs.Bridge.Libsrt.{
  SocketId, Channel, Libsrt, Io, ◌>>=◌, ◌>>◌, pure, call, close, accept_one, try_hand,
  srt_epoll_add_usock, srt_epoll_remove_usock,
}
use bilbycast_libsrt_rs.Bridge.Socket.{SocketState, Sockets, get}

-- The listener's accept channel, if it is tracked and has one.
abbrev pub accept_channel : Option SocketState → Option Channel
accept_channel none = none
accept_channel (some st) = st.accept_tx

-- The socket is configured and polled once it has an owner, and closed where it has none.
unfoldable pub own_or_close : SocketId → (handed : Bool) → Io (Unit {0})
own_or_close accepted true = do
  set_bool_opt accepted srto_rcvsyn false
  set_bool_opt accepted srto_sndsyn false
  call (srt_epoll_add_usock accepted)
own_or_close accepted false = close accepted

module _ (s : Libsrt) where
  -- `try_send` on the accept channel, where there is one.
  unfoldable pub hand_accepted : Option Channel → SocketId → Io Bool
  hand_accepted none accepted = pure false
  hand_accepted (some tx) accepted = try_hand s tx accepted

  unfoldable pub handle_accept : SocketId → Sockets → Io (Unit {0})
  handle_accept listener sockets = do
    accepted ← accept_one s listener
    if is_nonneg accepted
        then (do
          handed ← hand_accepted (accept_channel (get listener sockets)) accepted
          own_or_close accepted handed)
        else pure tt
