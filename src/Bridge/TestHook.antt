-- ===== src/Bridge/TestHook.antt =====
-- srt-transport/src/epoll_bridge.rs: marking a healthy member as stranded, a command of builds with the
-- `test-hooks` feature (`force_stranded`).
use bilbycast_libsrt_rs.Shared.{
  ℕ, Bool, true, false, not, ◌&&◌, List, [], ◌∷◌, ◌++◌, Option, none, some, ℤ, eqb, any,
  if◌then◌else◌,
}
use bilbycast_libsrt_rs.Protocol.Config.{MemberStatus}
use bilbycast_libsrt_rs.Protocol.Error.{SrtError, Result, ok, err}
use bilbycast_libsrt_rs.Bridge.Endpoint.{GroupEndpoint}
use bilbycast_libsrt_rs.Bridge.Libsrt.{
  SocketId, Channel, Row, Libsrt, Io, ◌>>=◌, ◌>>◌, pure, call, get_state, reply_send, now as clock,
}
use bilbycast_libsrt_rs.Bridge.Status.{is_connected, map_member_status, raw_state_to_status}
use bilbycast_libsrt_rs.Bridge.Watch.{WatchedMember}
use bilbycast_libsrt_rs.Bridge.Plan.{contains}
use bilbycast_libsrt_rs.Bridge.Connect.{read_group_rows, spawned_member}
use bilbycast_libsrt_rs.Bridge.Socket.{SocketState, Sockets, get, put}
use bilbycast_libsrt_rs.Bridge.Adding.{live_group}

-- `matches!(status, Idle | Running)`
abbrev is_idle_or_running : MemberStatus → Bool
is_idle_or_running MemberStatus.idle = true
is_idle_or_running MemberStatus.running = true
is_idle_or_running _ = false

unfoldable pub all_superseded : List WatchedMember → List SocketId
all_superseded [] = []
all_superseded (w ∷ watched) = w.supersedes ++ all_superseded watched

-- The first watched member with the id is marked, and due at once.
unfoldable pub mark_forced : SocketId → ℕ → List WatchedMember → List WatchedMember
mark_forced member now [] = []
mark_forced member now (w ∷ watched) =
    let rest = mark_forced member now watched in
    if eqb w.id member then record w { forced = true; not_before = now } ∷ watched else w ∷ rest

module _ (s : Libsrt) where
  -- The search stops at the first row that fits.
  unfoldable pub healthy_member : List Row → ℤ → List SocketId → Io (Option SocketId)
  healthy_member [] token superseded = pure none
  healthy_member (r ∷ rows) token superseded =
      let rest = healthy_member rows token superseded in
      if eqb r.token token
        && not (contains superseded r.id)
        && is_idle_or_running (map_member_status r.memberstate)
      then (do
        raw ← get_state s r.id
        if is_connected (raw_state_to_status raw) then pure (some r.id) else rest)
      else rest

  -- A member that is not watched yet is watched from here on.
  unfoldable pub force_watched :
      (is_watched : Bool) → SocketId → GroupEndpoint → ℕ → SocketState → Io SocketState
  force_watched true member endpoint now st =
      pure (record st { watched = mark_forced member now st.watched })
  force_watched false member endpoint now st = do
    w ← spawned_member s member endpoint now
    pure (record st { watched = st.watched ++ record w { forced = true } ∷ [] })

  unfoldable pub force_member :
      SocketId
      → GroupEndpoint
      → SocketState
      → Sockets
      → Option SocketId
      → Io (Result (Unit {0}) × Sockets)
  force_member id endpoint st sockets none = pure (err SrtError.invalid_param, sockets)
  force_member id endpoint st sockets (some member) = do
    now ← clock s
    st' ← force_watched (any (λ w. eqb w.id member) st.watched) member endpoint now st
    pure (ok tt, put id st' sockets)

  unfoldable pub force_in_group :
      SocketId → GroupEndpoint → Sockets → Option SocketState → Io (Result (Unit {0}) × Sockets)
  force_in_group id endpoint sockets none = pure (err SrtError.connection_lost, sockets)
  force_in_group id endpoint sockets (some st) = do
    rows ← read_group_rows s id []
    member ← healthy_member rows endpoint.token (all_superseded st.watched)
    force_member id endpoint st sockets member

  unfoldable pub force_stranded :
      SocketId → GroupEndpoint → Sockets → Io (Result (Unit {0}) × Sockets)
  force_stranded id endpoint sockets =
      force_in_group id endpoint sockets (live_group (get id sockets))

  unfoldable pub strand_command : SocketId → GroupEndpoint → Channel → Sockets → Io Sockets
  strand_command id endpoint reply sockets = do
    (marked, sockets') ← force_stranded id endpoint sockets
    call (reply_send reply marked)
    pure sockets'
