-- ===== src/Bridge/Command.antt =====
-- srt-transport/src/epoll_bridge.rs: the commands that Tokio tasks send to the I/O thread (`IoCommand`).
use bilbycast_libsrt_rs.Shared.{ℕ, Bool, List, Option, ℤ}
use bilbycast_libsrt_rs.Protocol.Config.{SrtConfig}
use bilbycast_libsrt_rs.Bridge.Endpoint.{SocketAddr, GroupEndpoint}
use bilbycast_libsrt_rs.Bridge.Libsrt.{SocketId, Channel}

-- A channel end and an access control are named by their identities; the mode of a group is given by
-- whether it is libsrt's backup type.
pub data IoCommand : Type 0 where
  create_socket : SrtConfig → (reply : Channel) → IoCommand
  bind : SocketId → SocketAddr → (reply : Channel) → IoCommand
  listen : SocketId → (backlog : ℤ) → (reply : Channel) → IoCommand
  connect : SocketId → SocketAddr → (reply : Channel) → IoCommand
  register_socket : SocketId → (recv_tx send_rx status_tx : Channel) → IoCommand
  register_listener : SocketId → (accept_tx : Channel) → (access_control : Option ℕ) → IoCommand
  get_stats : SocketId → (reply : Channel) → IoCommand
  get_state : SocketId → (reply : Channel) → IoCommand
  get_peer_addr : SocketId → (reply : Channel) → IoCommand
  get_local_addr : SocketId → (reply : Channel) → IoCommand
  get_stream_id : SocketId → (reply : Channel) → IoCommand
  close : SocketId → IoCommand
  create_group : (backup : Bool) → SrtConfig → (reply : Channel) → IoCommand
  connect_group : SocketId → List GroupEndpoint → (reply : Channel) → IoCommand
  add_group_member : SocketId → GroupEndpoint → (reply : Channel) → IoCommand
  -- only in builds with the `test-hooks` feature
  test_strand_member : SocketId → GroupEndpoint → (reply : Channel) → IoCommand
  get_group_member_stats : SocketId → (reply : Channel) → IoCommand
  shutdown : IoCommand
