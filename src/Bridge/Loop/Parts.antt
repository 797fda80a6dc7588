-- ===== src/Bridge/Loop/Parts.antt =====
-- What the events, the sends, the checks and the sweeps of the loop keep of the sockets.
use bilbycast_libsrt_rs.Shared.{
  ◌≡◌, refl, sym, ap, ◌∙◌, Bool, true, false, ◌&&◌, List, [], ◌∷◌, Option, none, some, Bool-cases,
  inl, inr, if◌then◌else◌,
}
use bilbycast_libsrt_rs.Protocol.Config.{SocketStatus}
use bilbycast_libsrt_rs.Protocol.Packet.{Bytes}
use bilbycast_libsrt_rs.Bridge.Libsrt.{
  SocketId, Channel, Libsrt, Io, pure, History, srt_getsockstate,
}
use bilbycast_libsrt_rs.Bridge.Status.{is_init, same_status}
use bilbycast_libsrt_rs.Bridge.Socket.{SocketState, Sockets, get, update_status}
use bilbycast_libsrt_rs.Bridge.Transfer.{handle_send}
use bilbycast_libsrt_rs.Bridge.Transfer.Order.{handle_send-Conserves}
use bilbycast_libsrt_rs.Bridge.Release.{release_all, close_and_release, cleanup_zombies}
use bilbycast_libsrt_rs.Bridge.Events.{
  Event, finish_connect, take_reply, on_connect, on_writable, break_socket, on_error, process_event,
  process_epoll_events, is_listening, on_readable,
}
use bilbycast_libsrt_rs.Bridge.Events.Group.{SameLife, after_backlog-SameLife}
use bilbycast_libsrt_rs.Bridge.Loop.{
  drain_sends, follow_status, fail_connect, poll_tracked, poll_states, has_send,
}
use bilbycast_libsrt_rs.Bridge.Loop.Sound.{
  Good, Sound, Keeps-Good, update_status-Keeps, get-Sound, put-Sound, remove-Sound,
}

module _ (s : Libsrt) where
  -- A status change of a tracked socket.
  pub update-Good :
      (st : SocketState) (status : SocketStatus) (h : History)
      → Good st
      → Good (update_status st status h).0
  update-Good st status h =
      Keeps-Good st (update_status st status h).0 (update_status-Keeps st status h)

  finish_connect-Sound :
      (id : SocketId) (sockets : Sockets) (st : SocketState) (reply : Channel) (connected : Bool)
      (h : History)
      → Good st
      → Sound sockets
      → Sound (finish_connect s id sockets st reply connected h).0
  unfolding finish_connect
  finish_connect-Sound id sockets st reply true h good sound =
      put-Sound id _ sockets
        (update-Good (record st { connect_reply = none }) SocketStatus.connected _ good) sound
  finish_connect-Sound id sockets st reply false h good sound =
      put-Sound id _ sockets
        (update-Good (record st { connect_reply = none }) SocketStatus.broken _ good) sound

  take_reply-Sound :
      (id : SocketId) (sockets : Sockets) (st : SocketState) (o : Option Channel) (h : History)
      → Good st
      → Sound sockets
      → Sound (take_reply s id sockets st o h).0
  unfolding take_reply
  take_reply-Sound id sockets st none h good sound = sound
  take_reply-Sound id sockets st (some reply) h good sound =
      finish_connect-Sound id sockets st reply _ (srt_getsockstate id ∷ h) good sound

  -- An operation on the tracked state, as the code looks it up.
  on_connect-Sound :
      (id : SocketId) (sockets : Sockets) (o : Option SocketState) (h : History)
      → get id sockets ≡ o
      → Sound sockets
      → Sound (on_connect s id sockets o h).0
  unfolding on_connect
  on_connect-Sound id sockets none h at sound = sound
  on_connect-Sound id sockets (some st) h at sound =
      take_reply-Sound id sockets st st.connect_reply h (get-Sound id sockets at sound) sound

  handle_send-Good :
      (id : SocketId) (st : SocketState) (channel : List Bytes) (h : History)
      → Good st
      → Good (handle_send s id st channel h).0.0
  unfolding handle_send
  handle_send-Good id st channel h (short, limit, caller) =
      let (lost, total, explained, short') = handle_send-Conserves s id st channel h short in
      let same : SameLife st (handle_send s id st channel h).0.0 =
        after_backlog-SameLife s id st channel _ _ in
      (
        short',
        rw (sym (ap (λ v. v.watched) same)) limit,
        λ no. sym (ap (λ v. v.watched) same) ∙ caller (ap (λ v. v.is_group) same ∙ no),
      )

  on_writable-Sound :
      (id : SocketId) (sockets : Sockets) (o : Option SocketState) (h : History)
      → get id sockets ≡ o
      → Sound sockets
      → Sound (on_writable s id sockets o h).0
  unfolding on_writable
  on_writable-Sound id sockets none h at sound = sound
  on_writable-Sound id sockets (some st) h at sound =
      put-Sound id _ sockets (handle_send-Good id st _ _ (get-Sound id sockets at sound)) sound

  break_socket-Sound :
      (id : SocketId) (sockets : Sockets) (st : SocketState) (counts : Bool) (h : History)
      → Good st
      → Sound sockets
      → Sound (break_socket s id sockets st counts h).0
  unfolding break_socket
  break_socket-Sound id sockets st true h good sound =
      put-Sound id _ sockets (update-Good st SocketStatus.broken h good) sound
  break_socket-Sound id sockets st false h good sound = sound

  on_error-Sound :
      (id : SocketId) (sockets : Sockets) (o : Option SocketState) (h : History)
      → get id sockets ≡ o
      → Sound sockets
      → Sound (on_error s id sockets o h).0
  unfolding on_error
  on_error-Sound id sockets none h at sound = sound
  on_error-Sound id sockets (some st) h at sound =
      break_socket-Sound id sockets st _ _ (get-Sound id sockets at sound) sound

  pub if-Sound :
      (b : Bool) (m k : Io Sockets) (h : History)
      → Sound (m h).0
      → Sound (k h).0
      → Sound ((if b then m else k) h).0
  if-Sound true m k h a c = a
  if-Sound false m k h a c = c

  process_event-Sound :
      (ev : Event) (sockets : Sockets) (h : History)
      → Sound sockets
      → Sound (process_event s ev sockets h).0
  unfolding process_event
  process_event-Sound ev sockets h sound =
      let first =
        if ev.connect_flag then on_connect s ev.fd sockets (get ev.fd sockets) else pure sockets in
      let (sockets1, h1) = first h in
      let sound1 : Sound sockets1 =
        if-Sound ev.connect_flag _ _ h (on_connect-Sound ev.fd sockets _ h refl sound) sound in
      let h2 = ((if ev.in_flag then on_readable s ev.fd sockets1 else pure tt) h1).1 in
      let second =
        if ev.out_flag then on_writable s ev.fd sockets1 (get ev.fd sockets1) else pure sockets1 in
      let (sockets2, h3) = second h2 in
      let sound2 : Sound sockets2 =
        if-Sound ev.out_flag _ _ h2 (on_writable-Sound ev.fd sockets1 _ h2 refl sound1) sound1 in
      if-Sound (is_listening (get ev.fd sockets) && ev.in_flag) _ _ h sound
        (if-Sound ev.err_flag _ _ h3 (on_error-Sound ev.fd sockets2 _ h3 refl sound2) sound2)

  pub process_epoll_events-Sound :
      (events : List Event) (sockets : Sockets) (h : History)
      → Sound sockets
      → Sound (process_epoll_events s events sockets h).0
  unfolding process_epoll_events
  process_epoll_events-Sound [] sockets h sound = sound
  process_epoll_events-Sound (ev ∷ events) sockets h sound =
      process_epoll_events-Sound events _ _ (process_event-Sound ev sockets h sound)

  pub drain_sends-Sound :
      (ids : List SocketId) (sockets : Sockets) (h : History)
      → Sound sockets
      → Sound (drain_sends s ids sockets h).0
  unfolding drain_sends
  drain_sends-Sound [] sockets h sound = sound
  drain_sends-Sound (id ∷ ids) sockets h sound = drain_sends-Sound ids _ _ (
      if-Sound (has_send s (get id sockets)) _ _ h (on_writable-Sound id sockets _ h refl sound)
        sound)

  fail_connect-Good :
      (st : SocketState) (dead : Bool) (reply : Option Channel) (h : History)
      → Good st
      → Good (fail_connect s st dead reply h).0
  unfolding fail_connect
  fail_connect-Good st false reply h good = good
  fail_connect-Good st true none h good = good
  fail_connect-Good st true (some reply) h good = good

  follow_status-Good :
      (st : SocketState) (status : SocketStatus) (h : History)
      → Good st
      → Good (follow_status s st status h).0
  unfolding follow_status
  follow_status-Good st status h good = elim (Bool-cases (same_status status st.last_status)) [
    | inl same ↦ rw same good
    | inr new ↦ rw new (fail_connect-Good _ _ _ _ (update-Good st status h good))
  ]

  poll_tracked-Sound :
      (id : SocketId) (status : SocketStatus) (sockets : Sockets) (o : Option SocketState)
      (h : History)
      → get id sockets ≡ o
      → Sound sockets
      → Sound (poll_tracked s id status sockets o h).0
  unfolding poll_tracked
  poll_tracked-Sound id status sockets none h at sound = sound
  poll_tracked-Sound id status sockets (some st) h at sound =
      if-Sound (st.is_group && is_init st.last_status) _ _ h sound (
        put-Sound id _ sockets (follow_status-Good st status h (get-Sound id sockets at sound))
          sound)

  pub poll_states-Sound :
      (ids : List SocketId) (sockets : Sockets) (h : History)
      → Sound sockets
      → Sound (poll_states s ids sockets h).0
  unfolding poll_states
  poll_states-Sound [] sockets h sound = sound
  poll_states-Sound (id ∷ ids) sockets h sound =
      poll_states-Sound ids _ _
        (poll_tracked-Sound id _ sockets _ (srt_getsockstate id ∷ h) refl sound)

  release_all-Sound :
      (ids : List SocketId) (sockets : Sockets) (h : History)
      → Sound sockets
      → Sound (release_all ids sockets h).0
  unfolding release_all close_and_release
  release_all-Sound [] sockets h sound = sound
  release_all-Sound (id ∷ ids) sockets h sound =
      release_all-Sound ids _ _ (remove-Sound id sockets sound)

  pub cleanup_zombies-Sound :
      (sockets : Sockets) (h : History) → Sound sockets → Sound (cleanup_zombies s sockets h).0
  unfolding cleanup_zombies
  cleanup_zombies-Sound sockets h sound = release_all-Sound _ sockets _ sound
