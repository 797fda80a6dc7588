-- ===== src/Bridge/Events/Group.antt =====
-- What an event can do to a group that libsrt says is alive.
use bilbycast_libsrt_rs.Shared.{
  ◌≡◌, refl, subst, sym, ◌∙◌, ap, Bool, true, false, ◌&&◌, List, [], ◌∷◌, Option, none, some, inl,
  inr, eqb, Bool-cases, if◌then◌else◌, arith,
}
use bilbycast_libsrt_rs.Protocol.Packet.{Bytes}
use bilbycast_libsrt_rs.Bridge.Libsrt.{SocketId, Channel, RawState, Libsrt, History, pure}
use bilbycast_libsrt_rs.Bridge.Status.{is_terminal_status, raw_state_to_status}
use bilbycast_libsrt_rs.Bridge.Socket.{SocketState, Sockets, get, put}
use bilbycast_libsrt_rs.Bridge.Transfer.{
  Drained, emptied, blocked, failed, drain, after_channel, drain_queue, drain_channel,
  after_backlog, handle_send,
}
use bilbycast_libsrt_rs.Bridge.Events.{
  Event, is_listening, group_err_is_real, take_reply, on_connect, on_writable, counts_as_broken,
  break_socket, on_error, process_event, queue_of,
}

-- Every reading of a socket's state gives `st`, whatever was called before it.
abbrev pub Steady : Libsrt → (SocketId → RawState) → Type 0
Steady s st = (h : History) (id : SocketId) → s.getsockstate h id ≡ st id

-- The two states differ in their backlog at most.
abbrev pub SameLife : SocketState → SocketState → Type 0
SameLife st st' = record st { send_backlog = [] } ≡ record st' { send_backlog = [] }

pub get-put_self :
    (id : SocketId) (v st : SocketState) (m : Sockets)
    → get id m ≡ some st
    → get id (put id v m) ≡ some v
unfolding get put
get-put_self id v st [] there = cc
get-put_self id v st ((k, u) ∷ m) there = elim (Bool-cases (eqb k id)) [
  | inl same ↦ rw (same, put, get, same) refl
  | inr other ↦ rw (other, put, get, other) (get-put_self id v st m (ground (arith, other)))
]

module _ (s : Libsrt) where
  after_channel-SameLife : (st : SocketState) (d : Drained) → SameLife st (after_channel st d).0
  unfolding after_channel
  after_channel-SameLife st emptied = refl
  after_channel-SameLife st (blocked payload rest) = refl
  after_channel-SameLife st (failed payload rest) = refl

  drain_queue-SameLife :
      (id : SocketId) (st : SocketState) (channel : List Bytes) (send_rx : Option Channel)
      (h : History)
      → SameLife st (drain_queue s id (record st { send_backlog = [] }) channel send_rx h).0.0
  unfolding drain_queue
  drain_queue-SameLife id st channel none h = refl
  drain_queue-SameLife id st channel (some rx) h =
      after_channel-SameLife (record st { send_backlog = [] }) (drain s id channel h).0

  pub after_backlog-SameLife :
      (id : SocketId) (st : SocketState) (channel : List Bytes) (d : Drained) (h : History)
      → SameLife st (after_backlog s id st channel d h).0.0
  unfolding after_backlog drain_channel
  after_backlog-SameLife id st channel emptied h = drain_queue-SameLife id st channel st.send_rx h
  after_backlog-SameLife id st channel (blocked payload rest) h = refl
  after_backlog-SameLife id st channel (failed payload rest) h = refl

  -- The socket is tracked, with the same life.
  abbrev pub Lives : SocketId → SocketState → Sockets → Type 0
  Lives id st sockets = (st' : SocketState) × (get id sockets ≡ some st') × SameLife st st'

  on_writable-Lives :
      (id : SocketId) (st : SocketState) (sockets : Sockets) (h : History)
      → Lives id st sockets
      → Lives id st (on_writable s id sockets (get id sockets) h).0
  unfolding on_writable handle_send
  on_writable-Lives id st sockets h (st', there, same) =
      let (queue, h1) = queue_of s st'.send_rx h in
      let ((st'', rest), h2) = handle_send s id st' queue h1 in
      rw (there, on_writable)
        (
          st'',
          get-put_self id st'' st' sockets there,
          same ∙ after_backlog-SameLife id st' queue (drain s id st'.send_backlog h1).0 _,
        )

  module _ (state : SocketId → RawState) (steady : Steady s state) where
    on_error-alive :
        (id : SocketId) (st : SocketState) (sockets : Sockets) (h : History)
        → st.is_group ≡ true
        → is_terminal_status (raw_state_to_status (state id)) ≡ false
        → (on_error s id sockets (some st) h).0 ≡ sockets
    unfolding on_error counts_as_broken group_err_is_real break_socket
    on_error-alive id st sockets h group alive =
        rw (group, counts_as_broken, group_err_is_real, steady h id, alive, break_socket) refl

    connect_step-idle :
        (c : Bool) (id : SocketId) (st : SocketState) (sockets : Sockets) (h : History)
        → get id sockets ≡ some st
        → st.connect_reply ≡ none
        → ((if c then on_connect s id sockets (get id sockets) else pure sockets) h).0 ≡ sockets
    unfolding on_connect take_reply
    connect_step-idle false id st sockets h there idle = refl
    connect_step-idle true id st sockets h there idle =
        rw (there, on_connect, idle, take_reply) refl

    writable_step-Lives :
        (o : Bool) (id : SocketId) (st : SocketState) (sockets : Sockets) (h : History)
        → Lives id st sockets
        → Lives id st ((if o then on_writable s id sockets (get id sockets) else pure sockets) h).0
    writable_step-Lives false id st sockets h lives = lives
    writable_step-Lives true id st sockets h lives = on_writable-Lives id st sockets h lives

    error_step-Lives :
        (e : Bool) (id : SocketId) (st : SocketState) (sockets : Sockets) (h : History)
        → st.is_group ≡ true
        → is_terminal_status (raw_state_to_status (state id)) ≡ false
        → Lives id st sockets
        → Lives id st ((if e then on_error s id sockets (get id sockets) else pure sockets) h).0
    error_step-Lives false id st sockets h group alive lives = lives
    error_step-Lives true id st sockets h group alive (st', there, same) =
        let group' : st'.is_group ≡ true = sym (ap (λ r. r.is_group) same) ∙ group in
        let unchanged : (on_error s id sockets (get id sockets) h).0 ≡ sockets =
          rw there (on_error-alive id st' sockets h group' alive) in
        subst (λ m. Lives id st m) (sym unchanged) (st', there, same)

    -- A spurious error does not break a group: where libsrt gives a socket one state however often it is
    -- asked, an event on a tracked group with no connect pending, whose state it gives as not dead,
    -- changes nothing of the group's state but the backlog of its sends; its status and both its channels
    -- stay.
    pub live_group_survives :
        (ev : Event) (st : SocketState) (sockets : Sockets) (h : History)
        → get ev.fd sockets ≡ some st
        → st.is_group ≡ true
        → st.is_listener ≡ false
        → st.connect_reply ≡ none
        → is_terminal_status (raw_state_to_status (state ev.fd)) ≡ false
        → Lives ev.fd st (process_event s ev sockets h).0
    unfolding process_event
    live_group_survives ev st sockets h there group single idle alive =
        let plain : (is_listening (get ev.fd sockets) && ev.in_flag) ≡ false =
          ground (arith, there, single) in
        let same = connect_step-idle ev.connect_flag ev.fd st sockets h there idle in
        rw (plain, process_event)
          (error_step-Lives ev.err_flag ev.fd st _ _ group alive (
            writable_step-Lives ev.out_flag ev.fd st _ _
              (subst (λ m. Lives ev.fd st m) (sym same) (st, there, refl))))
