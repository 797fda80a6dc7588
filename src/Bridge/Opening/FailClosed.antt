-- ===== src/Bridge/Opening/FailClosed.antt =====
-- A listener whose access control cannot be armed, or that cannot listen.
use bilbycast_libsrt_rs.Shared.{
  ℕ, ℤ, ◌≡◌, refl, ap, ◌∙◌, Bool, true, false, ◌||◌, [], ◌∷◌, Option, none, some, ==_iff, eqb,
  eqb_refl, is_nonneg, Bool-cases, inl, inr, arith,
}
use bilbycast_libsrt_rs.Protocol.Config.{SocketStatus}
use bilbycast_libsrt_rs.Protocol.Error.{SrtError, ok}
use bilbycast_libsrt_rs.Bridge.Libsrt.{
  SocketId, Channel, Libsrt, History, srt_listen, srt_listen_callback,
}
use bilbycast_libsrt_rs.Bridge.Plan.{contains}
use bilbycast_libsrt_rs.Bridge.Check.Calls.{closed}
use bilbycast_libsrt_rs.Bridge.Status.{is_terminal_status}
use bilbycast_libsrt_rs.Bridge.Socket.{SocketState, Sockets, get, with_status, update_status}
use bilbycast_libsrt_rs.Bridge.Release.{close_and_release}
use bilbycast_libsrt_rs.Bridge.Release.Order.{answered, closed-close_and_release}
use bilbycast_libsrt_rs.Bridge.Release.Sweep.{get-remove, released-sockets}
use bilbycast_libsrt_rs.Bridge.Events.Group.{get-put_self}
use bilbycast_libsrt_rs.Bridge.Registering.{drop_state}
use bilbycast_libsrt_rs.Bridge.Opening.{
  arm_hook, give_up, start_listening, listen_armed, register_listen_callback, listen,
  last_srt_error, checked,
}

-- Whether `srt_listen` was called on the socket.
abbrev pub listened : SocketId → History → Bool
listened id [] = false
listened id (srt_listen k backlog ret ∷ h) = eqb k id || listened id h
listened id (c ∷ h) = listened id h

-- The socket is closed and forgotten.
abbrev pub GivenUp : SocketId → Sockets → History → Type 0
GivenUp id sockets h = (contains (closed h) id ≡ true) × (get id sockets ≡ none)

module _ (s : Libsrt) where
  drop_state-quiet :
      (id : SocketId) (o : Option SocketState) (h : History)
      → (closed (drop_state id o h).1 ≡ closed h)
        × (listened id (drop_state id o h).1 ≡ listened id h)
  drop_state-quiet id none h = (refl, refl)
  drop_state-quiet id (some st) h = (refl, refl)

  listened-close_and_release :
      (id : SocketId) (sockets : Sockets) (h : History)
      → listened id (close_and_release id sockets h).1 ≡ listened id h
  unfolding close_and_release
  listened-close_and_release id sockets h = ground arith

  give_up-GivenUp :
      (id : SocketId) (sockets : Sockets) (error : SrtError) (reply : Channel) (h : History)
      → let (sockets', h') = give_up s id sockets error reply h in
        GivenUp id sockets' h' × (listened id h' ≡ listened id h) × (answered reply h' ≡ true)
  unfolding give_up
  give_up-GivenUp id sockets error reply h =
      let ((released, sockets'), h1) = close_and_release id sockets h in
      let (same_closed, same_listened) = drop_state-quiet id released h1 in
      (
        (
          rw (same_closed, closed-close_and_release id sockets h, eqb_refl id) refl,
          ap (get id) (released-sockets id sockets h)
              ∙ get-remove id id sockets
              ∙ rw (eqb_refl id) refl,
        ),
        same_listened ∙ listened-close_and_release id sockets h,
        rw ((==_iff reply reply).1 refl) refl,
      )

  -- The socket is tracked as a listener.
  abbrev pub Listening : SocketId → Sockets → Type 0
  Listening id sockets =
      (st : SocketState) × (get id sockets ≡ some st)
      × (st.is_listener ≡ true)
      × (st.last_status ≡ SocketStatus.listening)

  start_listening-Listening :
      (id : SocketId) (sockets : Sockets) (o : Option SocketState) (st : SocketState) (h : History)
      → o ≡ some st
      → get id sockets ≡ some st
      → Listening id (start_listening s id sockets o h).0
  unfolding start_listening update_status with_status is_terminal_status
  start_listening-Listening id sockets none st h at there = cc
  start_listening-Listening id sockets (some u) st h at there =
      let st' : SocketState =
        with_status (record u { is_listener = true }) SocketStatus.listening in
      (st', get-put_self id st' st sockets there, refl, refl)

  -- What `listen_armed` leaves, by whether the hook was armed and whether libsrt listens.
  listen_armed-ends :
      (id : SocketId) (backlog : ℤ) (reply : Channel) (sockets : Sockets) (st : SocketState)
      (h : History)
      → get id sockets ≡ some st
      → let (sockets', h') = listen_armed s id backlog reply sockets (ok tt) h in
        (answered reply h' ≡ true)
        × (is_nonneg (s.listen h id backlog) ≡ false → GivenUp id sockets' h')
        × (is_nonneg (s.listen h id backlog) ≡ true → Listening id sockets')
  unfolding listen_armed
  listen_armed-ends id backlog reply sockets st h there =
      let h1 = srt_listen id backlog (s.listen h id backlog) ∷ h in
      elim (Bool-cases (is_nonneg (s.listen h id backlog))) [
        | inl up ↦ rw up (
          rw ((==_iff reply reply).1 refl) refl,
          λ no. cc,
          λ yes_up. start_listening-Listening id sockets (get id sockets) st h1 there there,
        )
        | inr failed ↦
            let (error, h2) = last_srt_error s h1 in
            let (gone, same, told) = give_up-GivenUp id sockets error reply h2 in
            rw failed (told, λ no. gone, λ up. cc)
      ]

  -- `Listen` fails closed: on a tracked socket with an access control, a hook that libsrt refuses means
  -- that `srt_listen` is not called and the socket is closed and forgotten; so it is where `srt_listen`
  -- fails; where both succeed the socket is a listener. The caller is answered each time.
  pub listen-fails_closed :
      (id : SocketId) (backlog : ℤ) (reply : Channel) (sockets : Sockets) (st : SocketState)
      (slot : ℕ) (h : History)
      → get id sockets ≡ some st
      → st.access_control ≡ some slot
      → let ret = s.listen_callback h id slot in
        let listens = is_nonneg (s.listen (srt_listen_callback id slot ret ∷ h) id backlog) in
        let (sockets', h') = listen s id backlog reply sockets h in
        (answered reply h' ≡ true)
        × (is_nonneg ret ≡ false → GivenUp id sockets' h' × (listened id h' ≡ listened id h))
        × (is_nonneg ret ≡ true → listens ≡ false → GivenUp id sockets' h')
        × (is_nonneg ret ≡ true → listens ≡ true → Listening id sockets')
  unfolding listen register_listen_callback arm_hook checked listen_armed last_srt_error
  listen-fails_closed id backlog reply sockets st slot h there hook =
      let ret = s.listen_callback h id slot in
      let h1 = srt_listen_callback id slot ret ∷ h in
      elim (Bool-cases (is_nonneg ret)) [
        | inl armed ↦
            let (told, gone, up) = listen_armed-ends id backlog reply sockets st h1 there in
            rw (there, hook, arm_hook, armed) (told, λ no. cc, λ a. gone, λ a. up)
        | inr refused ↦
            let (error, h2) = last_srt_error s h1 in
            let (gone, same, told) = give_up-GivenUp id sockets error reply h2 in
            rw (there, hook, arm_hook, refused) (told, λ no. (gone, same), λ a. cc, λ a. cc)
      ]
