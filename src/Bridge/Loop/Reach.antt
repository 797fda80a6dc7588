-- ===== src/Bridge/Loop/Reach.antt =====
-- The states that the loop reaches, turn after turn.
use bilbycast_libsrt_rs.Shared.{
  ℕ, ◌≡◌, subst, ap, Bool, true, false, not, ◌&&◌, ◌||◌, List, [], ◌∷◌, ℤ, Text, is_positive,
  is_nonneg, is_empty, leb, any, Bool-cases, inl, inr, if◌then◌else◌, ◌+◌, ◌-◌,
}
use bilbycast_libsrt_rs.Bridge.Address.{Endian}
use bilbycast_libsrt_rs.Bridge.Libsrt.{Libsrt, Io, History}
use bilbycast_libsrt_rs.Bridge.Status.{is_connected, is_connecting}
use bilbycast_libsrt_rs.Bridge.Socket.{Sockets}
use bilbycast_libsrt_rs.Bridge.Command.{IoCommand}
use bilbycast_libsrt_rs.Bridge.Commands.{process_command}
use bilbycast_libsrt_rs.Bridge.Events.{Event}
use bilbycast_libsrt_rs.Bridge.Loop.{
  LoopState, Input, Turn, continue, return, handle_events, drain_connected, sweep_groups,
  check_stranded, poll_when_due, idle_path, active_path, serve, drain_commands, stop, parked, busy,
  turn, keys, group_recv_sweep, stranded_check, state_poll_interval,
}
use bilbycast_libsrt_rs.Bridge.Loop.Sound.{Sound}
use bilbycast_libsrt_rs.Bridge.Loop.Parts.{
  if-Sound, process_epoll_events-Sound, drain_sends-Sound, poll_states-Sound, cleanup_zombies-Sound,
}
use bilbycast_libsrt_rs.Bridge.Loop.Checks.{check_stranded_members-Sound}
use bilbycast_libsrt_rs.Bridge.Loop.Commanded.{process_command-Sound}

module _ (s : Libsrt) where
  -- The test on a loop state, as `if-Sound` on sockets.
  if-SoundLoop :
      (b : Bool) (m k : Io LoopState) (h : History)
      → Sound (m h).0.sockets
      → Sound (k h).0.sockets
      → Sound ((if b then m else k) h).0.sockets
  if-SoundLoop true m k h a c = a
  if-SoundLoop false m k h a c = c

  handle_events-Sound :
      (polled : ℤ) (events : List Event) (sockets : Sockets) (h : History)
      → Sound sockets
      → Sound (handle_events s polled events sockets h).0
  unfolding handle_events
  handle_events-Sound polled events sockets h sound =
      if-Sound s (is_positive polled) _ _ h (process_epoll_events-Sound s events sockets h sound)
        sound

  drain_connected-Sound :
      (connected : Bool) (sockets : Sockets) (h : History)
      → Sound sockets
      → Sound (drain_connected s connected sockets h).0
  unfolding drain_connected
  drain_connected-Sound true sockets h sound = drain_sends-Sound s (keys sockets) sockets h sound
  drain_connected-Sound false sockets h sound = sound

  sweep_groups-Sound :
      (connected : Bool) (l : LoopState) (h : History)
      → Sound l.sockets
      → Sound (sweep_groups s connected l h).0.sockets
  unfolding sweep_groups
  sweep_groups-Sound false l h sound = sound
  sweep_groups-Sound true l h sound =
      if-SoundLoop (leb group_recv_sweep (s.now h - l.last_group_sweep)) _ _ _ sound sound

  check_stranded-Sound :
      (l : LoopState) (h : History) → Sound l.sockets → Sound (check_stranded s l h).0.sockets
  unfolding check_stranded
  check_stranded-Sound l h sound =
      if-SoundLoop (leb stranded_check (s.now h - l.last_stranded_check)) _ _ _
        (check_stranded_members-Sound s l.sockets l.group_rows _ sound) sound

  poll_when_due-Sound :
      (l : LoopState) (h : History) → Sound l.sockets → Sound (poll_when_due s l h).0.sockets
  unfolding poll_when_due
  poll_when_due-Sound l h sound =
      if-SoundLoop (leb state_poll_interval (l.state_poll_counter + 1)) _ _ h
        (cleanup_zombies-Sound s _ _ (poll_states-Sound s (keys l.sockets) l.sockets h sound)) sound

  idle_path-Sound :
      (input : Input) (l : LoopState) (h : History)
      → Sound l.sockets
      → Sound (idle_path s input l h).0.sockets
  unfolding idle_path
  idle_path-Sound input l h sound =
      cleanup_zombies-Sound s _ _ (handle_events-Sound input.polled input.events l.sockets h sound)

  active_path-Sound :
      (input : Input) (connected : Bool) (l : LoopState) (h : History)
      → Sound l.sockets
      → Sound (active_path s input connected l h).0.sockets
  unfolding active_path
  active_path-Sound input connected l h sound =
      if-SoundLoop (is_nonneg input.polled) _ _ h
        (poll_when_due-Sound _ _ (
          check_stranded-Sound _ _ (
            sweep_groups-Sound connected _ _ (
              drain_connected-Sound connected _ _
                (handle_events-Sound input.polled input.events l.sockets h sound)))))
        sound

  serve-Sound :
      (input : Input) (l : LoopState) (h : History)
      → Sound l.sockets
      → Sound (serve s input l h).0.sockets
  unfolding serve
  serve-Sound input l h sound =
      let connected = any (λ entry. is_connected entry.1.last_status) l.sockets in
      let connecting = any (λ entry. is_connecting entry.1.last_status) l.sockets in
      if-SoundLoop (not connected && not (not connected && connecting)) _ _ h
        (idle_path-Sound input l h sound) (active_path-Sound input connected l h sound)

-- The loop goes on with sound sockets, or it has returned.
abbrev SoundTurn : Turn → Type 0
SoundTurn (continue l) = Sound l.sockets
SoundTurn return = Unit

module _ (s : Libsrt) (e : Endian) (from_utf8_lossy : List ℕ → Text) where
  drain_commands-Sound :
      (cmds : List IoCommand) (sockets : Sockets) (h : History)
      → Sound sockets
      → Sound (drain_commands s e from_utf8_lossy cmds sockets h).0.1
  unfolding drain_commands
  drain_commands-Sound [] sockets h sound = sound
  drain_commands-Sound (cmd ∷ cmds) sockets h sound =
      let kept = process_command-Sound s e from_utf8_lossy cmd sockets h sound in
      let ((on, sockets'), h') = process_command s e from_utf8_lossy cmd sockets h in
      elim (Bool-cases on) [
        | inl more ↦ rw more (drain_commands-Sound cmds sockets' h' kept)
        | inr last ↦ rw last kept
      ]

  if-SoundTurn :
      (b : Bool) (m k : Io Turn) (h : History)
      → SoundTurn (m h).0
      → SoundTurn (k h).0
      → SoundTurn ((if b then m else k) h).0
  if-SoundTurn true m k h a c = a
  if-SoundTurn false m k h a c = c

  parked-Sound :
      (cmds : List IoCommand) (disconnected : Bool) (l : LoopState) (h : History)
      → Sound l.sockets
      → SoundTurn (parked s e from_utf8_lossy cmds disconnected l h).0
  unfolding parked stop
  parked-Sound [] disconnected l h sound = if-SoundTurn disconnected _ _ h tt sound
  parked-Sound (cmd ∷ cmds) disconnected l h sound =
      let ((on, sockets'), h') = process_command s e from_utf8_lossy cmd l.sockets h in
      if-SoundTurn on _ _ h' (process_command-Sound s e from_utf8_lossy cmd l.sockets h sound) tt

  turn-Sound :
      (input : Input) (l : LoopState) (h : History)
      → Sound l.sockets
      → SoundTurn (turn s e from_utf8_lossy input l h).0
  unfolding turn busy stop
  turn-Sound input l h sound =
      let ((on, sockets'), h') = drain_commands s e from_utf8_lossy input.commands l.sockets h in
      if-SoundTurn (is_empty l.sockets) _ _ h
        (parked-Sound input.commands input.disconnected l h sound)
        (if-SoundTurn (not on || input.disconnected) _ _ h' tt (
          serve-Sound s input (record l { sockets = sockets' }) h'
            (drain_commands-Sound input.commands l.sockets h sound)))

  -- A state of the loop that a run of the thread reaches, with the calls made by then.
  pub data Reach : LoopState → History → Type 0 where
    -- the thread starts with no socket
    start : (l : LoopState) (h : History) → l.sockets ≡ [] → Reach l h
    next :
        {l : LoopState} {h : History} (l' : LoopState) (h' : History) (input : Input)
        → Reach l h
        → turn s e from_utf8_lossy input l h ≡ (continue l', h')
        → Reach l' h'

  -- Whatever commands and events come and whatever libsrt answers, in each state that the loop reaches:
  -- each socket has one entry, at most one message is held back for each, each watched member has been
  -- replaced at most the limit's three times, and only the members of a caller group are watched.
  pub Reach-Sound : {l : LoopState} {h : History} → Reach l h → Sound l.sockets
  Reach-Sound (start l h empty) = rw empty tt
  Reach-Sound (next {l = l} {h = h} l' h' input before went) =
      subst SoundTurn (ap (λ r. r.0) went) (turn-Sound input l h (Reach-Sound before))
