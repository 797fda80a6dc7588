-- ===== src/Bridge/Loop/Polled.antt =====
-- What the state poll does for a caller whose connect is pending.
use bilbycast_libsrt_rs.Shared.{
  ◌≡◌, refl, ◌∙◌, Bool, true, false, ◌&&◌, List, [], ◌∷◌, Option, none, some, ==_iff, eqb, eqb_iff,
  Bool-cases, inl, inr, ◌⊎◌, arith,
}
use bilbycast_libsrt_rs.Protocol.Config.{SocketStatus}
use bilbycast_libsrt_rs.Bridge.Libsrt.{
  SocketId, RawState, srts_broken, srts_closed, Channel, Libsrt, History, srt_getsockstate,
}
use bilbycast_libsrt_rs.Bridge.Status.{is_init, same_status, raw_state_to_status}
use bilbycast_libsrt_rs.Bridge.Plan.{contains}
use bilbycast_libsrt_rs.Bridge.Socket.{
  SocketState, Sockets, get, put, announce, with_status, update_status,
}
use bilbycast_libsrt_rs.Bridge.Release.Order.{answered}
use bilbycast_libsrt_rs.Bridge.Events.Connect.{answered-announce, with_status-reply}
use bilbycast_libsrt_rs.Bridge.Opening.{last_srt_error}
use bilbycast_libsrt_rs.Bridge.Loop.{
  fail_connect, follow_status, poll_tracked, poll_states, is_broken_or_closed, keys,
}

module _ (s : Libsrt) (reply : Channel) where
  fail_connect-answered :
      (st : SocketState) (dead : Bool) (o : Option Channel) (h : History)
      → answered reply h ≡ true
      → answered reply (fail_connect s st dead o h).1 ≡ true
  unfolding fail_connect last_srt_error
  fail_connect-answered st false o h told = told
  fail_connect-answered st true none h told = told
  fail_connect-answered st true (some r) h told = ground (arith, told)

  follow_status-answered :
      (st : SocketState) (status : SocketStatus) (h : History)
      → answered reply h ≡ true
      → answered reply (follow_status s st status h).1 ≡ true
  unfolding follow_status update_status
  follow_status-answered st status h told = elim (Bool-cases (same_status status st.last_status)) [
    | inl same ↦ rw same told
    | inr new ↦ rw new (
        fail_connect-answered (with_status st status) (is_broken_or_closed status)
          (with_status st status).connect_reply (announce st.status_tx status h)
          (answered-announce reply st.status_tx status h ∙ told))
  ]

  poll_tracked-answered :
      (id : SocketId) (status : SocketStatus) (sockets : Sockets) (o : Option SocketState)
      (h : History)
      → answered reply h ≡ true
      → answered reply (poll_tracked s id status sockets o h).1 ≡ true
  unfolding poll_tracked
  poll_tracked-answered id status sockets none h told = told
  poll_tracked-answered id status sockets (some st) h told =
      elim (Bool-cases (st.is_group && is_init st.last_status)) [
        | inl fresh ↦ rw fresh told
        | inr known ↦ rw known (follow_status-answered st status h told)
      ]

  poll_states-answered :
      (ids : List SocketId) (sockets : Sockets) (h : History)
      → answered reply h ≡ true
      → answered reply (poll_states s ids sockets h).1 ≡ true
  unfolding poll_states
  poll_states-answered [] sockets h told = told
  poll_states-answered (id ∷ ids) sockets h told =
      poll_states-answered ids _ _
        (poll_tracked-answered id _ sockets _ (srt_getsockstate id ∷ h) told)

  -- The state that a pending connect is answered in.
  follow_status-tells :
      (st : SocketState) (status : SocketStatus) (h : History)
      → st.connect_reply ≡ some reply
      → same_status status st.last_status ≡ false
      → is_broken_or_closed status ≡ true
      → answered reply (follow_status s st status h).1 ≡ true
  unfolding follow_status update_status fail_connect last_srt_error
  follow_status-tells st status h pending new dead =
      let still : (with_status st status).connect_reply ≡ some reply =
        (with_status-reply st status).0 ∙ pending in
      rw (new, dead, still, fail_connect) (rw ((==_iff reply reply).1 refl) refl)

  poll_tracked-tells :
      (id : SocketId) (status : SocketStatus) (sockets : Sockets) (st : SocketState) (h : History)
      → st.is_group ≡ false
      → st.connect_reply ≡ some reply
      → same_status status st.last_status ≡ false
      → is_broken_or_closed status ≡ true
      → answered reply (poll_tracked s id status sockets (some st) h).1 ≡ true
  unfolding poll_tracked
  poll_tracked-tells id status sockets st h single pending new dead =
      let known : (st.is_group && is_init st.last_status) ≡ false = ground (arith, single) in
      rw known (follow_status-tells st status h pending new dead)

get-put_other :
    (id k : SocketId) (v : SocketState) (m : Sockets)
    → eqb k id ≡ false
    → get id (put k v m) ≡ get id m
unfolding get put
get-put_other id k v [] other = refl
get-put_other id k v ((j, u) ∷ m) other =
    ground (arith, other, get-put_other id k v m other, eqb_iff j k, eqb_iff j id, eqb_iff k id)

module _ (s : Libsrt) where
  poll_tracked-other :
      (id k : SocketId) (status : SocketStatus) (sockets : Sockets) (o : Option SocketState)
      (h : History)
      → eqb k id ≡ false
      → get id (poll_tracked s k status sockets o h).0 ≡ get id sockets
  unfolding poll_tracked
  poll_tracked-other id k status sockets none h other = refl
  poll_tracked-other id k status sockets (some st) h other =
      elim (Bool-cases (st.is_group && is_init st.last_status)) [
        | inl fresh ↦ rw fresh refl
        | inr known ↦ rw known (get-put_other id k _ sockets other)
      ]

  poll_states-tells :
      (id : SocketId) (raw : RawState)
      → ((h : History) → s.getsockstate h id ≡ raw)
      → (ids : List SocketId) (sockets : Sockets) (st : SocketState) (reply : Channel) (h : History)
      → contains ids id ≡ true
      → get id sockets ≡ some st
      → st.is_group ≡ false
      → st.connect_reply ≡ some reply
      → same_status (raw_state_to_status raw) st.last_status ≡ false
      → is_broken_or_closed (raw_state_to_status raw) ≡ true
      → answered reply (poll_states s ids sockets h).1 ≡ true
  unfolding poll_states
  poll_states-tells id raw steady [] sockets st reply h listed there single pending new dead = cc
  poll_states-tells id raw steady (k ∷ ids) sockets st reply h listed there single pending new
        dead =
      elim (Bool-cases (eqb k id)) [
        | inl same ↦
            let here : k ≡ id = (eqb_iff k id).0 same in
            poll_states-answered s reply ids _ _ (
              rw (here, there, steady h)
                (poll_tracked-tells s reply id _ sockets st (srt_getsockstate id ∷ h) single pending
                  new dead))
        | inr other ↦
            poll_states-tells id raw steady ids _ st reply _ (ground (arith, listed, other))
              (poll_tracked-other id k _ sockets _ (srt_getsockstate k ∷ h) other ∙ there) single
              pending new dead
      ]

get-listed :
    (id : SocketId) (sockets : Sockets) (st : SocketState)
    → get id sockets ≡ some st
    → contains (keys sockets) id ≡ true
unfolding get
get-listed id [] st there = cc
get-listed id ((k, u) ∷ m) st there = elim (Bool-cases (eqb k id)) [
  | inl same ↦ ground (arith, same)
  | inr other ↦ ground (arith, other, get-listed id m st (ground (arith, there, other)))
]

module _ (s : Libsrt) where
  -- A caller that waits for a connect of a tracked socket, no group, is answered by the state poll of
  -- all sockets, when libsrt says of that socket, as often as it is asked, that it is broken or closed
  -- and the last status seen of it is another.
  pub poll_states-answers :
      (id : SocketId) (raw : RawState) (sockets : Sockets) (st : SocketState) (reply : Channel)
      (h : History)
      → (raw ≡ srts_broken) ⊎ (raw ≡ srts_closed)
      → ((before : History) → s.getsockstate before id ≡ raw)
      → get id sockets ≡ some st
      → st.is_group ≡ false
      → st.connect_reply ≡ some reply
      → same_status (raw_state_to_status raw) st.last_status ≡ false
      → answered reply (poll_states s (keys sockets) sockets h).1 ≡ true
  unfolding raw_state_to_status
  poll_states-answers id raw sockets st reply h dead steady there single pending new =
      let known : is_broken_or_closed (raw_state_to_status raw) ≡ true = ground (arith, dead) in
      poll_states-tells s id raw steady (keys sockets) sockets st reply h
        (get-listed id sockets st there) there single pending new known
