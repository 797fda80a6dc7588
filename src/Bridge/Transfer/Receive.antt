-- ===== src/Bridge/Transfer/Receive.antt =====
-- What `handle_recv` passes on.
use mathlib.Core.List.{append_assoc, append-nil}
use bilbycast_libsrt_rs.Shared.{
  ◌≡◌, refl, sym, ap, ◌∙◌, ◌==◌, ==_iff, Bool, true, false, List, [], ◌∷◌, ◌++◌, map, Option, none,
  some, inl, inr, ℤ, if◌then◌else◌, Bool-cases, arith,
}
use bilbycast_libsrt_rs.Protocol.Config.{SocketStatus}
use bilbycast_libsrt_rs.Protocol.Packet.{Bytes, ReceivedPacket, with_srctime}
use bilbycast_libsrt_rs.Bridge.Libsrt.{
  SocketId, Channel, Libsrt, History, packet_send, srt_recvmsg2, srt_getsockstate,
}
use bilbycast_libsrt_rs.Bridge.Status.{is_connected, raw_state_to_status}
use bilbycast_libsrt_rs.Bridge.Socket.{SocketState, Sockets, get}
use bilbycast_libsrt_rs.Bridge.Transfer.{is_group_id, may_read, recv_loop, handle_recv}

-- The packets passed on to a receive channel, the first one first.
abbrev pub received : Channel → History → List ReceivedPacket
received tx [] = []
received tx (packet_send k packet ∷ h) =
    if k == tx then received tx h ++ packet ∷ [] else received tx h
received tx (c ∷ h) = received tx h

-- The packet made of what one `srt_recvmsg2` gave.
abbrev pub packet_of : Bytes × ℤ → ReceivedPacket
packet_of (payload, srctime) = with_srctime payload srctime

-- Some of the messages are read, and passed on in order; the rest stays.
abbrev pub ReadInOrder : Channel → History → List (Bytes × ℤ) → List (Bytes × ℤ) → History → Type 0
ReadInOrder tx h incoming unread h' =
    (read : List (Bytes × ℤ)) × (incoming ≡ read ++ unread)
    × (received tx h' ≡ received tx h ++ map packet_of read)

module _ (s : Libsrt) where
  may_read-received :
      (group : Bool) (id : SocketId) (tx : Channel) (h : History)
      → received tx (may_read s group id h).1 ≡ received tx h
  unfolding may_read
  may_read-received true id tx h = refl
  may_read-received false id tx h = refl

  recv_loop-ReadInOrder :
      (group : Bool) (id : SocketId) (tx : Channel) (incoming : List (Bytes × ℤ)) (h : History)
      → let (unread, h') = recv_loop s group id (some tx) incoming h in
        ReadInOrder tx h incoming unread h'
  unfolding recv_loop
  recv_loop-ReadInOrder group id tx [] h =
      let quiet = may_read-received group id tx h ∙ sym (append-nil (received tx h)) in
      elim (Bool-cases (may_read s group id h).0) [
        | inl more ↦ rw (more, recv_loop) ([], refl, quiet)
        | inr done ↦ rw (done, recv_loop) ([], refl, quiet)
      ]
  recv_loop-ReadInOrder group id tx ((payload, srctime) ∷ rest) h =
      elim (Bool-cases (may_read s group id h).0) [
        | inl more ↦
            let h1 =
              packet_send tx (with_srctime payload srctime)
              ∷ srt_recvmsg2 id
              ∷ (may_read s group id h).1 in
            let passed_one : received tx h1 ≡ received tx h ++ with_srctime payload srctime ∷ [] =
              rw ((==_iff tx tx).1 refl, may_read-received group id tx h) refl in
            let (read, whole, passed) = recv_loop-ReadInOrder group id tx rest h1 in
            rw (more, recv_loop)
              (
                (payload, srctime) ∷ read,
                ap (λ l. (payload, srctime) ∷ l) whole,
                passed
                    ∙ ap (λ l. l ++ map packet_of read) passed_one
                    ∙ append_assoc (received tx h) (with_srctime payload srctime ∷ [])
                        (map packet_of read),
              )
        | inr done ↦
            rw (done, recv_loop)
              ([], refl, may_read-received group id tx h ∙ sym (append-nil (received tx h)))
      ]

  -- A connected group, or a socket that has data at each look, is read to the end.
  recv_loop-group :
      (id : SocketId) (tx : Option Channel) (incoming : List (Bytes × ℤ)) (h : History)
      → (recv_loop s true id tx incoming h).0 ≡ []
  unfolding recv_loop may_read
  recv_loop-group id tx [] h = refl
  recv_loop-group id none ((payload, srctime) ∷ rest) h = recv_loop-group id none rest _
  recv_loop-group id (some tx) ((payload, srctime) ∷ rest) h = recv_loop-group id (some tx) rest _

  -- What libsrt yields for a tracked socket with a receive channel is passed on in order, each message
  -- with its sender's timestamp, and nothing is skipped; and a group that libsrt says is connected is
  -- read until nothing is left.
  pub handle_recv-in_order :
      (id : SocketId) (sockets : Sockets) (incoming : List (Bytes × ℤ)) (h : History)
      (st : SocketState) (tx : Channel)
      → get id sockets ≡ some st
      → st.recv_tx ≡ some tx
      → let (unread, h') = handle_recv s id sockets incoming h in
        ReadInOrder tx h incoming unread h'
        × (is_group_id id ≡ true
            → raw_state_to_status (s.getsockstate h id) ≡ SocketStatus.connected
            → unread ≡ [])
  unfolding handle_recv
  handle_recv-in_order id sockets incoming h st tx tracked live =
      elim (Bool-cases (is_group_id id)) [
        | inr single ↦
            rw (single, tracked, live, handle_recv)
              (recv_loop-ReadInOrder false id tx incoming h, λ group up. cc)
        | inl group ↦
            let h1 = srt_getsockstate id ∷ h in
            elim (Bool-cases (is_connected (raw_state_to_status (s.getsockstate h id)))) [
              | inl up ↦
                  rw (group, tracked, live, up, handle_recv)
                    (
                      recv_loop-ReadInOrder true id tx incoming h1,
                      λ g u. recv_loop-group id (some tx) incoming h1,
                    )
              | inr down ↦
                  rw (group, tracked, live, down, handle_recv)
                    (
                      ([], refl, sym (append-nil (received tx h))),
                      λ g u. absurd (ground (arith, u, down)),
                    )
            ]
      ]
