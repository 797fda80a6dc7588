-- ===== src/Handles/Streaming.antt =====
-- srt-transport/src/socket.rs and group.rs: sending, receiving and watching a handle (`send`, `recv`,
-- `recv_bytes`, `stats`, `member_stats`, `wait_for_state`). A method that reads what a channel yields takes
-- it as an argument.
use bilbycast_libsrt_rs.Shared.{
  ℕ, Bool, List, [], ◌∷◌, ◌++◌, Option, none, some, ◌||◌, length, if◌then◌else◌,
}
use bilbycast_libsrt_rs.Protocol.Config.{SocketStatus}
use bilbycast_libsrt_rs.Protocol.Error.{SrtError, Result, ok, err}
use bilbycast_libsrt_rs.Protocol.Packet.{Bytes, ReceivedPacket}
use bilbycast_libsrt_rs.Bridge.Libsrt.{SocketId, Channel, Snapshot, GroupMemberStats}
use bilbycast_libsrt_rs.Bridge.Status.{is_terminal_status, same_status}
use bilbycast_libsrt_rs.Bridge.Command.{IoCommand}
use bilbycast_libsrt_rs.Handles.Task.{
  Sent, Task, ◌>>=◌, ◌>>◌, pure, send_command, new_channel, await,
}

-- The messages put into a send channel, in order; `none` is a channel whose receiver is dropped.
abbrev pub SendChannel : Type 0
SendChannel = Option (List Bytes)

-- `send_tx.send(data).await.map_err(|_| ConnectionLost)?`, once there is room for the message.
unfoldable pub send_to_group : Bytes → SendChannel → Result ℕ × SendChannel
send_to_group bytes none = (err SrtError.connection_lost, none)
send_to_group bytes (some queue) = (ok (length bytes), some (queue ++ bytes ∷ []))

-- A socket looks at its status first.
unfoldable pub send_to_socket : SocketStatus → Bytes → SendChannel → Result ℕ × SendChannel
send_to_socket status bytes channel =
    if is_terminal_status status
    then (err SrtError.connection_lost, channel)
    else send_to_group bytes channel

-- What the receive channel yields: `none` once its sender is dropped and it is empty.
unfoldable pub recv : Option ReceivedPacket → Result ReceivedPacket
recv (some pkt) = ok pkt
recv none = err SrtError.connection_lost

unfoldable pub recv_bytes : Option ReceivedPacket → Result Bytes
recv_bytes next = elim (recv next) [ ok pkt ↦ ok pkt.payload | err e ↦ err e ]

-- `reply_rx.await.unwrap_or_else(|_| Ok(SrtStats::default())).unwrap_or_default()`, where `none` stands for
-- the default stats.
abbrev pub snapshot_or_default : Option (Result Snapshot) → Option Snapshot
snapshot_or_default none = none
snapshot_or_default (some (ok stats)) = some stats
snapshot_or_default (some (err e)) = none

abbrev pub rows_or_empty : Option (List GroupMemberStats) → List GroupMemberStats
rows_or_empty none = []
rows_or_empty (some rows) = rows

unfoldable pub stats :
    SocketId → (Sent → Channel → Option (Result Snapshot)) → Task (Option Snapshot)
stats id replied = do
  reply ← new_channel
  send_command (IoCommand.get_stats id reply)
  answer ← await replied reply
  pure (snapshot_or_default answer)

unfoldable pub read_member_stats :
    SocketId → (Sent → Channel → Option (List GroupMemberStats)) → Task (List GroupMemberStats)
read_member_stats id replied = do
  reply ← new_channel
  send_command (IoCommand.get_group_member_stats id reply)
  answer ← await replied reply
  pure (rows_or_empty answer)

-- `current == target || current == Broken || current == Closed`
abbrev pub ends_wait : SocketStatus → SocketStatus → Bool
ends_wait target current =
    same_status current target
    || same_status current SocketStatus.broken
    || same_status current SocketStatus.closed

-- The wait reads the status, then each later one that the watch shows, until its sender is dropped.
unfoldable pub wait_for_state :
    (target current : SocketStatus) (later : List SocketStatus) → SocketStatus
wait_for_state target current [] = current
wait_for_state target current (next ∷ later) =
    let rest = wait_for_state target next later in
    if ends_wait target current then current else rest
