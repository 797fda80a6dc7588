-- ===== src/Bridge/Socket.antt =====
-- srt-transport/src/epoll_bridge.rs: the state kept per socket, and its one way to change status.
pub mod Lifetime
use bilbycast_libsrt_rs.Shared.{
  ℕ, Bool, ◌||◌, List, [], ◌∷◌, Option, none, some, eqb, if◌then◌else◌,
}
use bilbycast_libsrt_rs.Protocol.Config.{SocketStatus}
use bilbycast_libsrt_rs.Protocol.Packet.{Bytes}
use bilbycast_libsrt_rs.Bridge.Libsrt.{SocketId, Channel, Io, History, watch_send}
use bilbycast_libsrt_rs.Bridge.Status.{is_terminal_status, is_connected, is_connecting}
use bilbycast_libsrt_rs.Bridge.Watch.{WatchedMember}

-- A channel end or a heap slot that the state owns is named by its identity.
pub record SocketState : Type 0 where
  pub recv_tx : Option Channel
  pub send_rx : Option Channel
  pub send_backlog : List Bytes
  pub status_tx : Option Channel
  pub accept_tx : Option Channel
  pub access_control : Option ℕ
  pub is_listener : Bool
  pub is_group : Bool
  pub backup : Bool
  pub last_status : SocketStatus
  pub connect_reply : Option Channel
  pub watched : List WatchedMember

-- `HashMap<SocketId, SocketState>`: an association list, in the order of the map's iteration.
abbrev pub Sockets : Type 0
Sockets = List (SocketId × SocketState)

unfoldable pub get : SocketId → Sockets → Option SocketState
get id [] = none
get id ((k, v) ∷ m) = if eqb k id then some v else get id m

-- A write to an entry that is there; without one nothing changes.
unfoldable pub put : SocketId → SocketState → Sockets → Sockets
put id v [] = []
put id v ((k, u) ∷ m) = if eqb k id then (k, v) ∷ m else (k, u) ∷ put id v m

unfoldable pub remove : SocketId → Sockets → Sockets
remove id [] = []
remove id ((k, v) ∷ m) = let rest = remove id m in if eqb k id then rest else (k, v) ∷ rest

-- The message that `update_status` sends, if anyone listens.
abbrev pub announce : Option Channel → SocketStatus → History → History
announce none status h = h
announce (some tx) status h = watch_send tx status ∷ h

-- The state after `update_status`: a terminal status drops the receive side, and the send side of a
-- socket that was live.
unfoldable pub with_status : SocketState → SocketStatus → SocketState
with_status st status =
    let was_live = is_connected st.last_status || is_connecting st.last_status in
    if is_terminal_status status
    then record st {
      last_status = status;
      recv_tx = none;
      send_rx = if was_live then none else st.send_rx;
    }
    else record st { last_status = status }

unfoldable pub update_status : SocketState → SocketStatus → Io SocketState
unfolding with_status
update_status st status h = (with_status st status, announce st.status_tx status h)
