-- ===== src/Bridge/Release/Drops.antt =====
-- The operations that drop states: each closes a socket before its state goes.
use bilbycast_libsrt_rs.Shared.{
  ℕ, ◌≡◌, refl, true, Option, none, some, ℤ, is_nonneg, Bool-cases, inl, inr, eqb_refl,
}
use bilbycast_libsrt_rs.Protocol.Config.{SocketStatus}
use bilbycast_libsrt_rs.Protocol.Error.{SrtError, Result, ok, err}
use bilbycast_libsrt_rs.Bridge.Libsrt.{SocketId, Channel, Libsrt, History}
use bilbycast_libsrt_rs.Bridge.Plan.{contains}
use bilbycast_libsrt_rs.Bridge.Check.Calls.{closed}
use bilbycast_libsrt_rs.Bridge.Socket.{SocketState, Sockets, get, announce, update_status}
use bilbycast_libsrt_rs.Bridge.Release.{close_and_release, cleanup_zombies, cleanup}
use bilbycast_libsrt_rs.Bridge.Release.Order.{
  DropsAfterClose, release-DropsAfterClose, closed-close_and_release, closed-answer,
  answer-DropsAfterClose, sweeps-DropsAfterClose,
}
use bilbycast_libsrt_rs.Bridge.Registering.{drop_state, answer_closed, close_command}
use bilbycast_libsrt_rs.Bridge.Opening.{
  give_up, start_listening, arm_hook, hook_of, register_listen_callback, listen_armed, listen,
  last_srt_error, checked,
}

drop_state-DropsAfterClose :
    (id : SocketId) (o : Option SocketState) (h : History)
    → contains (closed h) id ≡ true
    → DropsAfterClose h
    → DropsAfterClose (drop_state id o h).1
drop_state-DropsAfterClose id none h shut safe = safe
drop_state-DropsAfterClose id (some st) h shut safe = (shut, safe)

answer_closed-DropsAfterClose :
    (id : SocketId) (o : Option SocketState) (h : History)
    → contains (closed h) id ≡ true
    → DropsAfterClose h
    → DropsAfterClose (answer_closed id o h).1
answer_closed-DropsAfterClose id none h shut safe = safe
answer_closed-DropsAfterClose id (some st) h shut safe = (
  rw (closed-answer st.connect_reply SrtError.socket_closed h) shut,
  answer-DropsAfterClose st.connect_reply SrtError.socket_closed h safe,
)

-- The socket has just been closed.
shut_now :
    (id : SocketId) (sockets : Sockets) (h : History)
    → contains (closed (close_and_release id sockets h).1) id ≡ true
shut_now id sockets h = rw (closed-close_and_release id sockets h, eqb_refl id) refl

close_command-DropsAfterClose :
    (id : SocketId) (sockets : Sockets) (h : History)
    → DropsAfterClose h
    → DropsAfterClose (close_command id sockets h).1
unfolding close_command
close_command-DropsAfterClose id sockets h safe =
    let ((released, sockets'), h1) = close_and_release id sockets h in
    answer_closed-DropsAfterClose id released h1 (shut_now id sockets h)
      (release-DropsAfterClose id sockets h safe)

announce-DropsAfterClose :
    (tx : Option Channel) (status : SocketStatus) (h : History)
    → DropsAfterClose h
    → DropsAfterClose (announce tx status h)
announce-DropsAfterClose none status h safe = safe
announce-DropsAfterClose (some tx) status h safe = safe

module _ (s : Libsrt) where
  give_up-DropsAfterClose :
      (id : SocketId) (sockets : Sockets) (error : SrtError) (reply : Channel) (h : History)
      → DropsAfterClose h
      → DropsAfterClose (give_up s id sockets error reply h).1
  unfolding give_up
  give_up-DropsAfterClose id sockets error reply h safe =
      let ((released, sockets'), h1) = close_and_release id sockets h in
      drop_state-DropsAfterClose id released h1 (shut_now id sockets h)
        (release-DropsAfterClose id sockets h safe)

  start_listening-DropsAfterClose :
      (id : SocketId) (sockets : Sockets) (o : Option SocketState) (h : History)
      → DropsAfterClose h
      → DropsAfterClose (start_listening s id sockets o h).1
  unfolding start_listening update_status
  start_listening-DropsAfterClose id sockets none h safe = safe
  start_listening-DropsAfterClose id sockets (some st) h safe =
      announce-DropsAfterClose st.status_tx SocketStatus.listening _ safe

  arm_hook-DropsAfterClose :
      (id : SocketId) (o : Option ℕ) (h : History)
      → DropsAfterClose h
      → DropsAfterClose (arm_hook s id o h).1
  unfolding arm_hook checked last_srt_error
  arm_hook-DropsAfterClose id none h safe = safe
  arm_hook-DropsAfterClose id (some slot) h safe =
      elim (Bool-cases (is_nonneg (s.listen_callback h id slot))) [
        | inl took ↦ rw took safe
        | inr refused ↦ rw refused safe
      ]

  listen_armed-DropsAfterClose :
      (id : SocketId) (backlog : ℤ) (reply : Channel) (sockets : Sockets)
      (armed : Result (Unit {0})) (h : History)
      → DropsAfterClose h
      → DropsAfterClose (listen_armed s id backlog reply sockets armed h).1
  unfolding listen_armed last_srt_error
  listen_armed-DropsAfterClose id backlog reply sockets (err error) h safe =
      give_up-DropsAfterClose id sockets error reply h safe
  listen_armed-DropsAfterClose id backlog reply sockets (ok armed) h safe =
      elim (Bool-cases (is_nonneg (s.listen h id backlog))) [
        | inl listens ↦
            rw listens (start_listening-DropsAfterClose id sockets (get id sockets) _ safe)
        | inr fails ↦ rw fails (give_up-DropsAfterClose id sockets _ reply _ safe)
      ]

-- Where every state dropped so far was dropped, and its access-control slot with it, after its socket was
-- closed, the zombie sweep, the shutdown, the `Close` command and the `Listen` command keep it so.
pub drops_after_close :
    (s : Libsrt) (id : SocketId) (backlog : ℤ) (reply : Channel) (sockets : Sockets) (h : History)
    → DropsAfterClose h
    → DropsAfterClose (cleanup_zombies s sockets h).1
      × DropsAfterClose (cleanup sockets h).1
      × DropsAfterClose (close_command id sockets h).1
      × DropsAfterClose (listen s id backlog reply sockets h).1
unfolding listen register_listen_callback
drops_after_close s id backlog reply sockets h safe =
    let (swept, cleaned) = sweeps-DropsAfterClose s sockets h safe in
    (
      swept,
      cleaned,
      close_command-DropsAfterClose id sockets h safe,
      listen_armed-DropsAfterClose s id backlog reply sockets _ _
          (arm_hook-DropsAfterClose s id (hook_of s (get id sockets)) h safe),
    )
