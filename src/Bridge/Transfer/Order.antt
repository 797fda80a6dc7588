-- ===== src/Bridge/Transfer/Order.antt =====
-- What the data path does to the order and the number of messages.
use mathlib.Core.List.{append_assoc, append-nil}
use bilbycast_libsrt_rs.Shared.{
  ◌≤◌, ◌≡◌, refl, sym, ap, subst, ◌∙◌, ◌⊎◌, inl, inr, false, List, [], ◌∷◌, ◌++◌, Option, none,
  some, ℤ, eqb, eqb_refl, is_nonneg, length, if◌then◌else◌, Bool-cases, arith,
}
use bilbycast_libsrt_rs.Protocol.Packet.{Bytes}
use bilbycast_libsrt_rs.Bridge.Libsrt.{
  SocketId, Channel, Libsrt, History, srt_sendmsg2, srt_getlasterror,
}
use bilbycast_libsrt_rs.Bridge.Socket.{SocketState}
use bilbycast_libsrt_rs.Bridge.Transfer.{
  Drained, emptied, blocked, failed, drain, after_channel, drain_queue, drain_channel,
  after_backlog, handle_send, would_block,
}

-- The messages that libsrt accepted on the socket, the first sent first.
abbrev pub sent : SocketId → History → List Bytes
sent id [] = []
sent id (srt_sendmsg2 k payload ret ∷ h) =
    if eqb k id then (if is_nonneg ret then sent id h ++ payload ∷ [] else sent id h) else sent id h
sent id (c ∷ h) = sent id h

-- The messages a drain left, the one it failed on included.
abbrev left : Drained → List Bytes
left emptied = []
left (blocked payload rest) = payload ∷ rest
left (failed payload rest) = payload ∷ rest

-- The history ends in a send of the message that failed for good.
abbrev pub FailedOn : Libsrt → SocketId → Bytes → History → Type 0
FailedOn s id payload (srt_getlasterror ∷ h) =
    (ret : ℤ) × (before : History) × (h ≡ srt_sendmsg2 id payload ret ∷ before)
    × (is_nonneg ret ≡ false)
    × (would_block (s.getlasterror h) ≡ false)
FailedOn s id payload _ = ⊥

module _ (s : Libsrt) where
  drain-sent :
      (id : SocketId) (msgs : List Bytes) (h : History)
      → let (d, h') = drain s id msgs h in sent id h' ++ left d ≡ sent id h ++ msgs
  unfolding drain
  drain-sent id [] h = refl
  drain-sent id (payload ∷ rest) h = elim (Bool-cases (is_nonneg (s.sendmsg2 h id payload))) [
    | inl accepted ↦
        let h1 = srt_sendmsg2 id payload (s.sendmsg2 h id payload) ∷ h in
        rw (accepted, drain)
          (drain-sent id rest h1
            ∙ rw (eqb_refl id, accepted) (append_assoc (sent id h) (payload ∷ []) rest))
    | inr refused ↦ ground (arith, eqb_refl id, refused)
  ]

  drain-failed :
      (id : SocketId) (msgs : List Bytes) (h : History) (payload : Bytes) (rest : List Bytes)
      → (drain s id msgs h).0 ≡ failed payload rest
      → FailedOn s id payload (drain s id msgs h).1
  unfolding drain
  drain-failed id [] h payload rest e = cc
  drain-failed id (first ∷ more) h payload rest e =
      elim (Bool-cases (is_nonneg (s.sendmsg2 h id first))) [
        | inl accepted ↦
            let h1 = srt_sendmsg2 id first (s.sendmsg2 h id first) ∷ h in
            let e' : (drain s id more h1).0 ≡ failed payload rest = ground (arith, accepted) in
            rw (accepted, drain) (drain-failed id more h1 payload rest e')
        | inr refused ↦
            let h1 = srt_sendmsg2 id first (s.sendmsg2 h id first) ∷ h in
            let (hard, same) : (would_block (s.getlasterror h1) ≡ false) × (first ≡ payload) =
              ground (arith, refused) in
            rw (refused, drain)
              (
                s.sendmsg2 h id first,
                h,
                ap (λ m. srt_sendmsg2 id m (s.sendmsg2 h id first) ∷ h) same,
                refused,
                hard,
              )
      ]

  -- A message was dropped only where libsrt has just failed on it.
  abbrev pub Explained : SocketId → List Bytes → History → Type 0
  Explained id lost h =
      (lost ≡ []) ⊎ ((payload : Bytes) × (lost ≡ payload ∷ []) × FailedOn s id payload h)

  -- The messages `total` are the ones sent, then a dropped one, then the backlog, then the channel.
  abbrev pub Conserves :
      SocketId → (total : List Bytes) → SocketState × List Bytes → History → Type 0
  Conserves id total (st, channel) h =
      (lost : List Bytes) × (sent id h ++ (lost ++ (st.send_backlog ++ channel)) ≡ total)
      × Explained id lost h
      × (length st.send_backlog ≤ 1)

  after_channel-Conserves :
      (id : SocketId) (st : SocketState) (d : Drained) (h : History) (total : List Bytes)
      → ((payload : Bytes) (rest : List Bytes) → d ≡ failed payload rest → FailedOn s id payload h)
      → sent id h ++ left d ≡ total
      → Conserves id total (after_channel st d) h
  unfolding after_channel
  after_channel-Conserves id st emptied h total f e = ([], e, inl refl, omega arith)
  after_channel-Conserves id st (blocked payload rest) h total f e = ([], e, inl refl, omega arith)
  after_channel-Conserves id st (failed payload rest) h total f e =
      (payload ∷ [], e, inr (payload, refl, f payload rest refl), omega arith)

  drain_queue-Conserves :
      (id : SocketId) (st : SocketState) (channel : List Bytes) (send_rx : Option Channel)
      (h : History)
      → let (after, h') = drain_queue s id (record st { send_backlog = [] }) channel send_rx h in
        Conserves id (sent id h ++ channel) after h'
  unfolding drain_queue
  drain_queue-Conserves id st channel none h = ([], refl, inl refl, omega arith)
  drain_queue-Conserves id st channel (some rx) h =
      after_channel-Conserves id (record st { send_backlog = [] }) _ _ _ (drain-failed id channel h)
        (drain-sent id channel h)

  drain_channel-Conserves :
      (id : SocketId) (st : SocketState) (channel : List Bytes) (h : History)
      → let (after, h') = drain_channel s id (record st { send_backlog = [] }) channel h in
        Conserves id (sent id h ++ channel) after h'
  unfolding drain_channel
  drain_channel-Conserves id st channel h = drain_queue-Conserves id st channel st.send_rx h

  length-left :
      (id : SocketId) (msgs : List Bytes) (h : History)
      → length (left (drain s id msgs h).0) ≤ length msgs
  unfolding drain
  length-left id [] h = omega arith
  length-left id (payload ∷ rest) h =
      let h1 = srt_sendmsg2 id payload (s.sendmsg2 h id payload) ∷ h in
      ground (arith, length-left id rest h1)

  after_backlog-Conserves :
      (id : SocketId) (st : SocketState) (channel : List Bytes) (d : Drained) (h : History)
      (msgs : List Bytes)
      → ((payload : Bytes) (rest : List Bytes) → d ≡ failed payload rest → FailedOn s id payload h)
      → sent id h ++ left d ≡ msgs
      → length (left d) ≤ 1
      → let (after, h') = after_backlog s id st channel d h in
        Conserves id (msgs ++ channel) after h'
  unfolding after_backlog
  after_backlog-Conserves id st channel emptied h msgs f e short =
      let all_sent : sent id h ≡ msgs = sym (append-nil (sent id h)) ∙ e in
      subst
        (λ l.
          let (after, h') = drain_channel s id (record st { send_backlog = [] }) channel h in
          Conserves id (l ++ channel) after h')
        all_sent (drain_channel-Conserves id st channel h)
  after_backlog-Conserves id st channel (blocked payload rest) h msgs f e short = (
    [],
    sym (append_assoc (sent id h) (payload ∷ rest) channel) ∙ ap (λ l. l ++ channel) e,
    inl refl,
    short,
  )
  after_backlog-Conserves id st channel (failed payload rest) h msgs f e short = (
    payload ∷ [],
    sym (append_assoc (sent id h) (payload ∷ rest) channel) ∙ ap (λ l. l ++ channel) e,
    inr (payload, refl, f payload rest refl),
    omega arith,
  )

  -- No message is reordered or duplicated, and at most one is dropped: the messages sent before, then the backlog, then the
  -- channel are, in order, the messages sent by now, one that libsrt failed on for good (if there is
  -- one), the backlog and the channel after. A backlog of at most one message stays one.
  pub handle_send-Conserves :
      (id : SocketId) (st : SocketState) (channel : List Bytes) (h : History)
      → length st.send_backlog ≤ 1
      → let (after, h') = handle_send s id st channel h in
        Conserves id (sent id h ++ (st.send_backlog ++ channel)) after h'
  unfolding handle_send
  handle_send-Conserves id st channel h short =
      let total = append_assoc (sent id h) st.send_backlog channel in
      subst (λ l. let (after, h') = handle_send s id st channel h in Conserves id l after h') total
        (after_backlog-Conserves id st channel _ _ (sent id h ++ st.send_backlog)
          (drain-failed id st.send_backlog h) (drain-sent id st.send_backlog h)
          (omega (arith, length-left id st.send_backlog h)))
