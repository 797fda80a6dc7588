-- ===== src/Handles/Group.antt =====
-- srt-transport/src/group.rs: `SrtGroupBuilder::connect`, `SrtGroup::add_member`, `close` and the drop of
-- a group.
use bilbycast_libsrt_rs.Shared.{Bool, true, false, List, [], ◌∷◌, map}
use bilbycast_libsrt_rs.Protocol.Error.{SrtError, Result, ok, err}
use bilbycast_libsrt_rs.Bridge.Endpoint.{SocketAddr, GroupEndpoint, check}
use bilbycast_libsrt_rs.Bridge.Libsrt.{SocketId, Channel}
use bilbycast_libsrt_rs.Bridge.Command.{IoCommand}
use bilbycast_libsrt_rs.Handles.Builders.{GroupMode, SrtGroupBuilder}
use bilbycast_libsrt_rs.Handles.Task.{
  Replies, Task, ◌>>=◌, ◌>>◌, pure, send_command, new_channel, await, or_socket_fail,
}

pub record SrtGroup : Type 0 where
  pub id : SocketId
  pub send_tx : Channel
  pub recv_rx : Channel
  pub status_rx : Channel
  pub mode : GroupMode
  pub endpoints : List SocketAddr

-- `mode.to_srt_type() == SRT_GTYPE_BACKUP`
unfoldable pub is_backup : GroupMode → Bool
is_backup GroupMode.broadcast = false
is_backup GroupMode.backup = true

-- `for ep in &self.endpoints { ep.check()?; }`
unfoldable pub check_all : List GroupEndpoint → Result (Unit {0})
check_all [] = ok tt
check_all (ep ∷ eps) = elim (check ep) [ ok fine ↦ check_all eps | err e ↦ err e ]

module _ (r : Replies) where
  -- A failed connect closes the group.
  unfoldable pub finish_group :
      SrtGroupBuilder
      → SocketId
      → (send_tx recv_rx status_rx : Channel) → Result (Unit {0})
      → Task (Result SrtGroup)
  finish_group b id send_tx recv_rx status_rx (err e) = do
    send_command (IoCommand.close id)
    pure (err e)
  finish_group b id send_tx recv_rx status_rx (ok connected) = pure (
      ok (record {
        id = id;
        send_tx = send_tx;
        recv_rx = recv_rx;
        status_rx = status_rx;
        mode = b.mode;
        endpoints = map (λ ep. ep.addr) b.endpoints;
      }))

  unfoldable pub group_created : SrtGroupBuilder → Result SocketId → Task (Result SrtGroup)
  group_created b (err e) = pure (err e)
  group_created b (ok id) = do
    recv ← new_channel
    send ← new_channel
    status ← new_channel
    send_command (IoCommand.register_socket id recv send status)
    reply ← new_channel
    send_command (IoCommand.connect_group id b.endpoints reply)
    connected ← await r.unit_reply reply
    finish_group b id send recv status (or_socket_fail connected)

  unfoldable pub group_checked : SrtGroupBuilder → Result (Unit {0}) → Task (Result SrtGroup)
  group_checked b (err e) = pure (err e)
  group_checked b (ok fine) = do
    reply ← new_channel
    send_command (IoCommand.create_group (is_backup b.mode) b.config reply)
    created ← await r.id_reply reply
    group_created b (or_socket_fail created)

  -- Without an endpoint, or with a bad one, the I/O thread is not asked.
  unfoldable pub connect_endpoints : SrtGroupBuilder → List GroupEndpoint → Task (Result SrtGroup)
  connect_endpoints b [] = pure (err SrtError.invalid_param)
  connect_endpoints b (ep ∷ eps) = group_checked b (check_all (ep ∷ eps))

  unfoldable pub connect_to_all : SrtGroupBuilder → Task (Result SrtGroup)
  connect_to_all b = connect_endpoints b b.endpoints

  unfoldable pub add_checked :
      SrtGroup → GroupEndpoint → Result (Unit {0}) → Task (Result (Unit {0}))
  add_checked g ep (err e) = pure (err e)
  add_checked g ep (ok fine) = do
    reply ← new_channel
    send_command (IoCommand.add_group_member g.id ep reply)
    added ← await r.unit_reply reply
    pure (or_socket_fail added)

  unfoldable pub add_to_group : SrtGroup → GroupEndpoint → Task (Result (Unit {0}))
  add_to_group g ep = add_checked g ep (check ep)

  -- Only in builds with the `test-hooks` feature.
  unfoldable pub strand_checked :
      SrtGroup → GroupEndpoint → Result (Unit {0}) → Task (Result (Unit {0}))
  strand_checked g ep (err e) = pure (err e)
  strand_checked g ep (ok fine) = do
    reply ← new_channel
    send_command (IoCommand.test_strand_member g.id ep reply)
    stranded ← await r.unit_reply reply
    pure (or_socket_fail stranded)

  unfoldable pub test_strand_member : SrtGroup → GroupEndpoint → Task (Result (Unit {0}))
  test_strand_member g ep = strand_checked g ep (check ep)

-- `SrtGroup::close`, and its drop.
unfoldable pub close_group : SrtGroup → Task (Unit {0})
close_group g = send_command (IoCommand.close g.id)
