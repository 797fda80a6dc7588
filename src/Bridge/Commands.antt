-- ===== src/Bridge/Commands.antt =====
-- srt-transport/src/epoll_bridge.rs: one command on the I/O thread (`process_command`).
use bilbycast_libsrt_rs.Shared.{ℕ, Bool, true, false, List, Text}
use bilbycast_libsrt_rs.Bridge.Address.{Endian}
use bilbycast_libsrt_rs.Bridge.Libsrt.{
  Libsrt, Io, ◌>>=◌, ◌>>◌, pure, call, get_state, reply_send, stats_reply, status_reply, addr_reply,
  text_reply, members_reply, Call,
}
use bilbycast_libsrt_rs.Bridge.Status.{raw_state_to_status}
use bilbycast_libsrt_rs.Bridge.Socket.{Sockets}
use bilbycast_libsrt_rs.Bridge.Command.{IoCommand}
use bilbycast_libsrt_rs.Bridge.Queries.{
  get_socket_stats, get_group_member_stats, get_peer_addr, get_local_addr, get_stream_id,
}
use bilbycast_libsrt_rs.Bridge.Registering.{register_socket, register_listener, close_command}
use bilbycast_libsrt_rs.Bridge.Opening.{create_socket, bind_socket, listen, connect}
use bilbycast_libsrt_rs.Bridge.Grouping.{create_group, connect_group_command, add_member_command}
use bilbycast_libsrt_rs.Bridge.TestHook.{strand_command}

-- Whether the thread goes on, and the sockets.
abbrev pub go_on : Sockets → Io (Bool × Sockets)
go_on sockets = pure (true, sockets)

-- What a query reads, sent to the one who asked.
abbrev pub answer_with {ℓ} : {A : Type ℓ} → Io A → (A → Call) → Sockets → Io (Bool × Sockets)
answer_with query reply sockets = do a ← query; call (reply a); go_on sockets

module _ (s : Libsrt) (e : Endian) (from_utf8_lossy : List ℕ → Text) where
  unfoldable pub process_command : IoCommand → Sockets → Io (Bool × Sockets)
  process_command (IoCommand.create_socket config reply) sockets = do
    create_socket s config reply
    go_on sockets
  process_command (IoCommand.bind id addr reply) sockets =
      answer_with (bind_socket s id addr) (reply_send reply) sockets
  process_command (IoCommand.listen id backlog reply) sockets = do
    sockets' ← listen s id backlog reply sockets
    go_on sockets'
  process_command (IoCommand.connect id addr reply) sockets = do
    sockets' ← connect s id addr reply sockets
    go_on sockets'
  process_command (IoCommand.register_socket id recv_tx send_rx status_tx) sockets = do
    sockets' ← register_socket s id recv_tx send_rx status_tx sockets
    go_on sockets'
  process_command (IoCommand.register_listener id accept_tx access_control) sockets = do
    sockets' ← register_listener id accept_tx access_control sockets
    go_on sockets'
  process_command (IoCommand.get_stats id reply) sockets =
      answer_with (get_socket_stats s id) (stats_reply reply) sockets
  process_command (IoCommand.get_state id reply) sockets =
      answer_with (get_state s id) (λ raw. status_reply reply (raw_state_to_status raw)) sockets
  process_command (IoCommand.get_peer_addr id reply) sockets =
      answer_with (get_peer_addr s e id) (addr_reply reply) sockets
  process_command (IoCommand.get_local_addr id reply) sockets =
      answer_with (get_local_addr s e id) (addr_reply reply) sockets
  process_command (IoCommand.get_stream_id id reply) sockets =
      answer_with (get_stream_id s from_utf8_lossy id) (text_reply reply) sockets
  process_command (IoCommand.close id) sockets = do
    sockets' ← close_command id sockets
    go_on sockets'
  process_command (IoCommand.create_group backup config reply) sockets = do
    sockets' ← create_group s backup config reply sockets
    go_on sockets'
  process_command (IoCommand.connect_group id endpoints reply) sockets = do
    sockets' ← connect_group_command s id endpoints reply sockets
    go_on sockets'
  process_command (IoCommand.add_group_member id endpoint reply) sockets = do
    sockets' ← add_member_command s id endpoint reply sockets
    go_on sockets'
  process_command (IoCommand.test_strand_member id endpoint reply) sockets = do
    sockets' ← strand_command s id endpoint reply sockets
    go_on sockets'
  process_command (IoCommand.get_group_member_stats id reply) sockets =
      answer_with (get_group_member_stats s e id) (members_reply reply) sockets
  process_command IoCommand.shutdown sockets = pure (false, sockets)
