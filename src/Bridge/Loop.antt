-- ===== src/Bridge/Loop.antt =====
-- srt-transport/src/epoll_bridge.rs: the main loop of the I/O thread (`io_thread_main`). What the outside
-- gives one turn is its input; sleeps are left out, but for the back-off's.
pub mod Sound
pub mod Parts
pub mod Checks
pub mod Opened
pub mod Stranded
pub mod Commanded
pub mod Reach
pub mod Polled
use bilbycast_libsrt_rs.Shared.{
  ℕ, ◌+◌, ◌-◌, ◌^◌, ◌%◌, min, Bool, true, false, not, ◌&&◌, ◌||◌, List, [], ◌∷◌, Option, none, some,
  ℤ, leb, is_nonneg, is_positive, any, map, is_empty, from_millis, if◌then◌else◌, Text,
}
use bilbycast_libsrt_rs.Protocol.Config.{SocketStatus}
use bilbycast_libsrt_rs.Protocol.Error.{err}
use bilbycast_libsrt_rs.Bridge.Address.{Endian}
use bilbycast_libsrt_rs.Bridge.Libsrt.{
  SocketId, Channel, Row, Libsrt, Io, ◌>>=◌, ◌>>◌, pure, call, get_state, now as clock, reply_send,
  channel_closed, thread_sleep,
}
use bilbycast_libsrt_rs.Bridge.Status.{
  raw_state_to_status, is_connected, is_connecting, is_init, same_status,
}
use bilbycast_libsrt_rs.Bridge.Socket.{SocketState, Sockets, get, put, update_status}
use bilbycast_libsrt_rs.Bridge.Transfer.{is_group_id}
use bilbycast_libsrt_rs.Bridge.Events.{Event, process_epoll_events, on_readable, on_writable}
use bilbycast_libsrt_rs.Bridge.Check.{check_stranded_members}
use bilbycast_libsrt_rs.Bridge.Release.{cleanup_zombies, cleanup}
use bilbycast_libsrt_rs.Bridge.Command.{IoCommand}
use bilbycast_libsrt_rs.Bridge.Commands.{process_command}
use bilbycast_libsrt_rs.Bridge.Opening.{last_srt_error}

abbrev pub group_recv_sweep : ℕ
group_recv_sweep = from_millis 100

abbrev pub stranded_check : ℕ
stranded_check = from_millis 100

abbrev pub state_poll_interval : ℕ
state_poll_interval = 100

-- The variables of the loop.
pub record LoopState : Type 0 where
  pub sockets : Sockets
  pub state_poll_counter : ℕ
  pub consecutive_epoll_errors : ℕ
  pub last_group_sweep : ℕ
  pub last_stranded_check : ℕ
  pub group_rows : List Row

-- What one turn finds: the commands in the channel, whether their senders are gone, and what
-- `srt_epoll_uwait` returns and writes.
pub record Input : Type 0 where
  pub commands : List IoCommand
  pub disconnected : Bool
  pub polled : ℤ
  pub events : List Event

abbrev pub keys : Sockets → List SocketId
keys sockets = map (λ entry. entry.0) sockets

-- `matches!(status, Broken | Closed)`
abbrev pub is_broken_or_closed : SocketStatus → Bool
is_broken_or_closed SocketStatus.broken = true
is_broken_or_closed SocketStatus.closed = true
is_broken_or_closed _ = false

module _ (s : Libsrt) where
  -- `if state.send_rx.is_some() && status == Connected`
  abbrev pub has_send : Option SocketState → Bool
  has_send none = false
  has_send (some st) = elim st.send_rx [ none ↦ false | some rx ↦ is_connected st.last_status ]

  -- The send channels of all connected sockets.
  unfoldable pub drain_sends : List SocketId → Sockets → Io Sockets
  drain_sends [] sockets = pure sockets
  drain_sends (id ∷ ids) sockets = do
    sockets' ←
        (if has_send (get id sockets)
          then on_writable s id sockets (get id sockets)
          else pure sockets)
    drain_sends ids sockets'

  -- A receive channel whose reader is there.
  abbrev pub is_read : Option Channel → Io Bool
  is_read none = pure false
  is_read (some tx) = do gone ← channel_closed s tx; pure (not gone)

  unfoldable pub groups_to_read : Sockets → Io (List SocketId)
  groups_to_read [] = pure []
  groups_to_read ((id, st) ∷ m) =
      if is_group_id id && is_connected st.last_status
      then (do
        wanted ← is_read st.recv_tx
        rest ← groups_to_read m
        pure (if wanted then id ∷ rest else rest))
      else groups_to_read m

  unfoldable pub read_groups : List SocketId → Sockets → Io (Unit {0})
  read_groups [] sockets = pure tt
  read_groups (id ∷ ids) sockets = do on_readable s id sockets; read_groups ids sockets

  -- A pending connect of a socket found broken or closed is answered.
  unfoldable pub fail_connect :
      SocketState → (dead : Bool) → (reply : Option Channel) → Io SocketState
  fail_connect st false reply = pure st
  fail_connect st true none = pure st
  fail_connect st true (some reply) = do
    error ← last_srt_error s
    call (reply_send reply (err error))
    pure (record st { connect_reply = none })

  -- A status that differs from the last one seen.
  unfoldable pub follow_status : SocketState → SocketStatus → Io SocketState
  follow_status st status = if same_status status st.last_status then pure st else (do
    st' ← update_status st status
    fail_connect st' (is_broken_or_closed status) st'.connect_reply)

  -- One turn of the state poll; a group without members has no status to follow.
  unfoldable pub poll_tracked : SocketId → SocketStatus → Sockets → Option SocketState → Io Sockets
  poll_tracked id status sockets none = pure sockets
  poll_tracked id status sockets (some st) =
      if st.is_group && is_init st.last_status
      then pure sockets
      else (do st' ← follow_status st status; pure (put id st' sockets))

  unfoldable pub poll_states : List SocketId → Sockets → Io Sockets
  poll_states [] sockets = pure sockets
  poll_states (id ∷ ids) sockets = do
    raw ← get_state s id
    sockets' ← poll_tracked id (raw_state_to_status raw) sockets (get id sockets)
    poll_states ids sockets'

  -- The parts of the active path after the events.
  unfoldable pub drain_connected : (has_connected : Bool) → Sockets → Io Sockets
  drain_connected true sockets = drain_sends (keys sockets) sockets
  drain_connected false sockets = pure sockets

  -- `last.elapsed() >= interval`
  abbrev pub elapsed : ℕ → ℕ → Io Bool
  elapsed last interval = do now ← clock s; pure (leb interval (now - last))

  unfoldable pub sweep_groups : (has_connected : Bool) → LoopState → Io LoopState
  sweep_groups false l = pure l
  sweep_groups true l = do
    due ← elapsed l.last_group_sweep group_recv_sweep
    if due
        then (do
          now ← clock s
          ids ← groups_to_read l.sockets
          read_groups ids l.sockets
          pure (record l { last_group_sweep = now }))
        else pure l

  unfoldable pub check_stranded : LoopState → Io LoopState
  check_stranded l = do
    due ← elapsed l.last_stranded_check stranded_check
    if due
        then (do
          now ← clock s
          (sockets', rows) ← check_stranded_members s l.sockets l.group_rows
          pure (record l { sockets = sockets'; group_rows = rows; last_stranded_check = now }))
        else pure l

  unfoldable pub poll_when_due : LoopState → Io LoopState
  poll_when_due l =
      if leb state_poll_interval (l.state_poll_counter + 1)
      then (do
        polled ← poll_states (keys l.sockets) l.sockets
        sockets' ← cleanup_zombies s polled
        pure (record l { sockets = sockets'; state_poll_counter = 0 }))
      else pure (record l { state_poll_counter = l.state_poll_counter + 1 })

  unfoldable pub handle_events : (polled : ℤ) → List Event → Sockets → Io Sockets
  handle_events polled events sockets =
      if is_positive polled then process_epoll_events s events sockets else pure sockets

  -- The path with no socket connected or connecting.
  unfoldable pub idle_path : Input → LoopState → Io LoopState
  idle_path input l = do
    sockets1 ← handle_events input.polled input.events l.sockets
    sockets2 ← cleanup_zombies s sockets1
    pure (record l { sockets = sockets2 })

  -- `1u64 << consecutive_epoll_errors.min(7)`, in milliseconds.
  abbrev pub backoff_ms : ℕ → ℕ
  backoff_ms errors = 2 ^ min errors 7

  unfoldable pub active_path : Input → (has_connected : Bool) → LoopState → Io LoopState
  active_path input has_connected l =
      if is_nonneg input.polled
      then (do
        sockets1 ← handle_events input.polled input.events l.sockets
        sockets2 ← drain_connected has_connected sockets1
        l1 ←
            sweep_groups has_connected
              (record l { sockets = sockets2; consecutive_epoll_errors = 0 })
        l2 ← check_stranded l1
        poll_when_due l2)
      else (do
        let errors = (l.consecutive_epoll_errors + 1) % 2 ^ 32
        call (thread_sleep (backoff_ms errors))
        pure (record l { consecutive_epoll_errors = errors }))

  -- The classification of the sockets, and the path it leads to.
  unfoldable pub serve : Input → LoopState → Io LoopState
  serve input l =
      let has_connected = any (λ entry. is_connected entry.1.last_status) l.sockets in
      let connecting = any (λ entry. is_connecting entry.1.last_status) l.sockets in
      if not has_connected && not (not has_connected && connecting)
      then idle_path input l
      else active_path input has_connected l

-- How a turn ends: with the loop's next state, or with the thread.
pub data Turn : Type 0 where
  continue : LoopState → Turn
  return : Turn

module _ (s : Libsrt) (e : Endian) (from_utf8_lossy : List ℕ → Text) where
  -- The commands in the channel, until one shuts the thread down.
  unfoldable pub drain_commands : List IoCommand → Sockets → Io (Bool × Sockets)
  drain_commands [] sockets = pure (true, sockets)
  drain_commands (cmd ∷ cmds) sockets = do
    (on, sockets') ← process_command s e from_utf8_lossy cmd sockets
    if on then drain_commands cmds sockets' else pure (false, sockets')

  unfoldable pub stop : Sockets → Io Turn
  stop sockets = do cleanup sockets; pure return

  -- With no socket the thread is parked until one command arrives, or its senders are gone.
  unfoldable pub parked : (commands : List IoCommand) → (disconnected : Bool) → LoopState → Io Turn
  parked [] disconnected l = if disconnected then stop l.sockets else pure (continue l)
  parked (cmd ∷ cmds) disconnected l = do
    (on, sockets') ← process_command s e from_utf8_lossy cmd l.sockets
    if on then pure (continue (record l { sockets = sockets' })) else stop sockets'

  unfoldable pub busy : Input → LoopState → Io Turn
  busy input l = do
    (on, sockets') ← drain_commands input.commands l.sockets
    if not on || input.disconnected
        then stop sockets'
        else (do l' ← serve s input (record l { sockets = sockets' }); pure (continue l'))

  -- One turn of the loop.
  unfoldable pub turn : Input → LoopState → Io Turn
  turn input l =
      if is_empty l.sockets then parked input.commands input.disconnected l else busy input l
