-- ===== src/Bridge/Events/Connect.antt =====
-- What a connect event does for the caller that waits for it.
use bilbycast_libsrt_rs.Shared.{
  ◌≡◌, refl, Bool, true, false, Option, none, some, ==_iff, if◌then◌else◌, ◌∷◌, arith,
}
use bilbycast_libsrt_rs.Protocol.Config.{SocketStatus}
use bilbycast_libsrt_rs.Protocol.Error.{ok, err, from_code}
use bilbycast_libsrt_rs.Bridge.Libsrt.{
  SocketId, Channel, Libsrt, History, reply_send, srt_getsockstate, srt_getlasterror,
}
use bilbycast_libsrt_rs.Bridge.Status.{is_connected, raw_state_to_status}
use bilbycast_libsrt_rs.Bridge.Socket.{
  SocketState, Sockets, get, announce, with_status, update_status,
}
use bilbycast_libsrt_rs.Bridge.Release.Order.{answered}
use bilbycast_libsrt_rs.Bridge.Events.{finish_connect, take_reply, on_connect}
use bilbycast_libsrt_rs.Bridge.Events.Group.{get-put_self}

pub answered-announce :
    (reply : Channel) (tx : Option Channel) (status : SocketStatus) (h : History)
    → answered reply (announce tx status h) ≡ answered reply h
answered-announce reply none status h = refl
answered-announce reply (some tx) status h = refl

pub with_status-reply :
    (st : SocketState) (status : SocketStatus)
    → ((with_status st status).connect_reply ≡ st.connect_reply)
      × ((with_status st status).last_status ≡ status)
unfolding with_status
with_status-reply st status = (ground arith, ground arith)

-- The socket is tracked with the status, and no connect waits for it.
abbrev pub Settled : SocketId → SocketStatus → Sockets → Type 0
Settled id status sockets =
    (st : SocketState) × (get id sockets ≡ some st)
    × (st.connect_reply ≡ none)
    × (st.last_status ≡ status)

module _ (s : Libsrt) where
  finish_connect-Settled :
      (id : SocketId) (sockets : Sockets) (st : SocketState) (reply : Channel) (connected : Bool)
      (h : History)
      → get id sockets ≡ some st
      → let (sockets', h') = finish_connect s id sockets st reply connected h in
        (answered reply h' ≡ true)
        × Settled id (if connected then SocketStatus.connected else SocketStatus.broken) sockets'
  unfolding finish_connect update_status
  finish_connect-Settled id sockets st reply true h there =
      let freed : SocketState = record st { connect_reply = none } in
      let (no_reply, status) = with_status-reply freed SocketStatus.connected in
      (
        rw
            (
              answered-announce reply st.status_tx SocketStatus.connected
                  (reply_send reply (ok tt) ∷ h),
              (==_iff reply reply).1 refl,
            )
            refl,
        (
          with_status freed SocketStatus.connected,
          get-put_self id _ st sockets there,
          no_reply,
          status,
        ),
      )
  finish_connect-Settled id sockets st reply false h there =
      let freed : SocketState = record st { connect_reply = none } in
      let (no_reply, status) = with_status-reply freed SocketStatus.broken in
      (
        rw
            (
              answered-announce reply st.status_tx SocketStatus.broken
                  (reply_send reply (err (from_code (s.getlasterror h))) ∷ srt_getlasterror ∷ h),
              (==_iff reply reply).1 refl,
            )
            refl,
        (
          with_status freed SocketStatus.broken,
          get-put_self id _ st sockets there,
          no_reply,
          status,
        ),
      )

  -- A caller does not wait for ever: a connect event on a tracked socket whose connect is pending answers
  -- the connect, leaves none pending, and leaves the socket Connected where libsrt gives that state for
  -- it, else Broken.
  pub on_connect-answers :
      (id : SocketId) (sockets : Sockets) (st : SocketState) (reply : Channel) (h : History)
      → get id sockets ≡ some st
      → st.connect_reply ≡ some reply
      → let (sockets', h') = on_connect s id sockets (get id sockets) h in
        (answered reply h' ≡ true)
        × Settled id
            (if is_connected (raw_state_to_status (s.getsockstate h id))
              then SocketStatus.connected
              else SocketStatus.broken)
            sockets'
  unfolding on_connect take_reply finish_connect
  on_connect-answers id sockets st reply h there pending =
      let done =
        finish_connect-Settled id sockets st reply
          (is_connected (raw_state_to_status (s.getsockstate h id))) (srt_getsockstate id ∷ h)
          there in
      rw (there, on_connect, pending, take_reply) done
