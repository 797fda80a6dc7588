-- ===== src/Bridge/Transfer.antt =====
-- srt-transport/src/epoll_bridge.rs: the data path (`handle_send`, `handle_recv`). A channel or libsrt's
-- receive buffer is given by what it yields in this call before it is empty, in order.
pub mod Order
pub mod Receive
use bilbycast_libsrt_rs.Shared.{
  ℕ, ◌/◌, ◌%◌, ◌^◌, Bool, true, false, not, ◌&&◌, ◌||◌, List, [], ◌∷◌, Option, none, some, ℤ, pos,
  negsuc, eqb, is_nonneg, is_positive, if◌then◌else◌, ◌==◌,
}
use bilbycast_libsrt_rs.Protocol.Error.{from_code, code, SrtError}
use bilbycast_libsrt_rs.Protocol.Packet.{Bytes, ReceivedPacket, with_srctime}
use bilbycast_libsrt_rs.Bridge.SockOpt.{srto_rcvdata}
use bilbycast_libsrt_rs.Bridge.Libsrt.{
  SocketId, Channel, Libsrt, Io, ◌>>=◌, ◌>>◌, pure, get_state, get_flag, last_error_code,
  send_message, call, srt_recvmsg2, packet_send,
}
use bilbycast_libsrt_rs.Bridge.Status.{is_connected, raw_state_to_status}
use bilbycast_libsrt_rs.Bridge.Socket.{SocketState, Sockets, get, put}

-- Bit 30 of a nonnegative id.
unfoldable pub is_group_id : SocketId → Bool
is_group_id (pos n) = n / 2 ^ 30 % 2 == 1
is_group_id (negsuc n) = false

-- `err == SrtError::AsyncSend`
abbrev pub would_block : ℤ → Bool
would_block c = elim (from_code c) [ SrtError.async_send ↦ true | _ ↦ false ]

-- How a drain of messages ended.
pub data Drained : Type 0 where
  -- all were sent
  emptied : Drained
  -- libsrt would block on the first message, which is kept, before the rest
  blocked : Bytes → (rest : List Bytes) → Drained
  -- the socket failed on the first message, which is dropped, before the rest
  failed : Bytes → (rest : List Bytes) → Drained

module _ (s : Libsrt) where
  -- The loops of `handle_send`, which differ in where the message goes that would block.
  unfoldable pub drain : SocketId → List Bytes → Io Drained
  drain id [] = pure emptied
  drain id (payload ∷ rest) = do
    ret ← send_message s id payload
    if is_nonneg ret then drain id rest else (do
      error ← last_error_code s
      pure (if would_block error then blocked payload rest else failed payload rest))

-- How `handle_send` ends, by how its second loop ended: the state, and what stays in the channel.
unfoldable pub after_channel : SocketState → Drained → SocketState × List Bytes
after_channel st emptied = (record st { send_backlog = [] }, [])
after_channel st (blocked payload rest) = (record st { send_backlog = payload ∷ [] }, rest)
after_channel st (failed payload rest) = (record st { send_backlog = [] }, rest)

module _ (s : Libsrt) where
  -- `if let Some(rx) = state.send_rx`, with the second loop.
  unfoldable pub drain_queue :
      SocketId
      → SocketState
      → (channel : List Bytes) → (send_rx : Option Channel) → Io (SocketState × List Bytes)
  drain_queue id st channel none = pure (st, channel)
  drain_queue id st channel (some rx) = do
    drained ← drain s id channel
    pure (after_channel st drained)

  -- The send channel, once the backlog is empty.
  unfoldable pub drain_channel :
      SocketId → SocketState → (channel : List Bytes) → Io (SocketState × List Bytes)
  drain_channel id st channel = drain_queue id st channel st.send_rx

  -- How the first loop ended, and what follows it.
  unfoldable pub after_backlog :
      SocketId → SocketState → (channel : List Bytes) → Drained → Io (SocketState × List Bytes)
  after_backlog id st channel emptied = drain_channel id (record st { send_backlog = [] }) channel
  after_backlog id st channel (blocked payload rest) =
      pure (record st { send_backlog = payload ∷ rest }, channel)
  after_backlog id st channel (failed payload rest) =
      pure (record st { send_backlog = rest }, channel)

  -- The socket's state after, and what stays in its send channel.
  unfoldable pub handle_send :
      SocketId → SocketState → (channel : List Bytes) → Io (SocketState × List Bytes)
  handle_send id st channel = do
    drained ← drain s id st.send_backlog
    after_backlog id st channel drained

-- The channel that received packets of the socket go to, if any.
abbrev pub receiver : Option SocketState → Option Channel
receiver none = none
receiver (some st) = st.recv_tx

-- A packet for which there is no channel is dropped.
abbrev pub deliver : Option Channel → ReceivedPacket → Io (Unit {0})
deliver none packet = pure tt
deliver (some tx) packet = call (packet_send tx packet)

module _ (s : Libsrt) where
  -- Only a single socket is asked for its `SRTO_RCVDATA`.
  unfoldable pub may_read : (group : Bool) → SocketId → Io Bool
  may_read true id = pure true
  may_read false id = do
    (ret, waiting) ← get_flag s id srto_rcvdata
    pure (is_nonneg ret && is_positive waiting)

  -- The loop of `handle_recv`: what stays unread.
  unfoldable pub recv_loop :
      (group : Bool)
      → SocketId
      → Option Channel
      → (incoming : List (Bytes × ℤ)) → Io (List (Bytes × ℤ))
  recv_loop group id tx [] = do
    more ← may_read group id
    if more then (do call (srt_recvmsg2 id); pure []) else pure []
  recv_loop group id tx ((payload, srctime) ∷ rest) = do
    more ← may_read group id
    if more
        then (do
          call (srt_recvmsg2 id)
          deliver tx (with_srctime payload srctime)
          recv_loop group id tx rest)
        else pure ((payload, srctime) ∷ rest)

  unfoldable pub handle_recv :
      SocketId → Sockets → (incoming : List (Bytes × ℤ)) → Io (List (Bytes × ℤ))
  handle_recv id sockets incoming =
      let tx = receiver (get id sockets) in
      if is_group_id id
      then (do
        raw ← get_state s id
        if is_connected (raw_state_to_status raw)
            then recv_loop true id tx incoming
            else pure incoming)
      else recv_loop false id tx incoming
