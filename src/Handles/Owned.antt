-- ===== src/Handles/Owned.antt =====
-- Who closes a socket that a handle's method has created or taken.
use bilbycast_libsrt_rs.Shared.{
  ℕ, suc, ◌+◌, arith, if◌then◌else◌, ◌≡◌, refl, ◌∙◌, Bool, true, false, ◌||◌, List, [], ◌∷◌, Option,
  none, some, Text, eqb, eqb_refl,
}
use bilbycast_libsrt_rs.Protocol.Error.{Result, ok, err}
use bilbycast_libsrt_rs.Bridge.Endpoint.{SocketAddr, GroupEndpoint}
use bilbycast_libsrt_rs.Bridge.Libsrt.{SocketId, Channel}
use bilbycast_libsrt_rs.Bridge.Command.{IoCommand}
use bilbycast_libsrt_rs.Handles.Builders.{SrtSocketBuilder, SrtGroupBuilder}
use bilbycast_libsrt_rs.Handles.Task.{Sent, Replies, Task, pure}
use bilbycast_libsrt_rs.Handles.Socket.{
  SrtSocket, bind_first, connect_bound, finish_connect, connect_created, connect, from_accepted,
  close_socket,
}
use bilbycast_libsrt_rs.Handles.Listener.{
  claimed, drop_unclaimed, claim, accept_taken, accept_from, accept,
}
use bilbycast_libsrt_rs.Handles.Group.{
  is_backup, check_all, finish_group, group_created, group_checked, connect_endpoints,
  connect_to_all,
}

-- A `Close` of the socket was sent.
abbrev pub close_sent : SocketId → List IoCommand → Bool
close_sent id [] = false
close_sent id (IoCommand.close k ∷ cmds) = eqb k id || close_sent id cmds
close_sent id (cmd ∷ cmds) = close_sent id cmds

-- A method that succeeds gives a handle of the socket, which nobody has closed; one that fails has
-- closed it.
abbrev pub Owned {ℓ} : {A : Type ℓ} → (A → SocketId) → SocketId → Result A → Sent → Type 0
Owned id_of id (ok a) h = (id_of a ≡ id) × (close_sent id h.commands ≡ false)
Owned id_of id (err e) h = close_sent id h.commands ≡ true

abbrev pub is_ok {ℓ} : {A : Type ℓ} → Result A → Bool
is_ok (ok a) = true
is_ok (err e) = false

-- There is an endpoint, and all pass their check.
abbrev pub can_connect : List GroupEndpoint → Bool
can_connect [] = false
can_connect (ep ∷ eps) = is_ok (check_all (ep ∷ eps))

-- `accept` hands out a socket.
abbrev pub holds_socket : Option (Result SrtSocket) → Bool
holds_socket none = false
holds_socket (some result) = is_ok result

-- How often a `Close` of the socket was sent.
abbrev pub closes : SocketId → List IoCommand → ℕ
closes id [] = 0
closes id (IoCommand.close k ∷ cmds) = (if eqb k id then 1 else 0) + closes id cmds
closes id (cmd ∷ cmds) = closes id cmds

-- The socket handed out, if one, is dropped.
abbrev pub drop_taken : Option (Result SrtSocket) → Task (Unit {0})
drop_taken none = pure tt
drop_taken (some (ok sock)) = close_socket sock
drop_taken (some (err e)) = pure tt

-- The state once a task has made a channel and sent a command.
abbrev pub asked : IoCommand → Sent → Sent
asked cmd h = record { commands = cmd ∷ h.commands; next = suc h.next }

module _ (r : Replies) where
  finish_connect-Owned :
      (id : SocketId) (send recv status : Channel) (stream_id : Text) (result : Result (Unit {0}))
      (h : Sent)
      → close_sent id h.commands ≡ false
      → let (made, h') = finish_connect r id send recv status stream_id result h in
        Owned (λ sock. sock.id) id made h'
  unfolding finish_connect
  finish_connect-Owned id send recv status stream_id (ok connected) h open_ = (refl, open_)
  finish_connect-Owned id send recv status stream_id (err e) h open_ = rw (eqb_refl id) refl

  bind_first-quiet :
      (id : SocketId) (addr : Option SocketAddr) (h : Sent)
      → close_sent id (bind_first r id addr h).1.commands ≡ close_sent id h.commands
  unfolding bind_first
  bind_first-quiet id none h = refl
  bind_first-quiet id (some addr) h = refl

  connect_bound-quiet :
      (id : SocketId) (remote : SocketAddr) (timeout : ℕ) (bound : Result (Unit {0})) (h : Sent)
      → close_sent id (connect_bound r id remote timeout bound h).1.commands
        ≡ close_sent id h.commands
  unfolding connect_bound
  connect_bound-quiet id remote timeout (ok bound) h = refl
  connect_bound-quiet id remote timeout (err e) h = refl

  connect_created-Owned :
      (b : SrtSocketBuilder) (remote : SocketAddr) (id : SocketId) (h : Sent)
      → close_sent id h.commands ≡ false
      → let (made, h') = connect_created r b remote (ok id) h in Owned (λ sock. sock.id) id made h'
  unfolding connect_created
  connect_created-Owned b remote id h open_ =
      let registered : Sent = record {
        commands = IoCommand.register_socket id h.next (suc h.next) (suc (suc h.next)) ∷ h.commands;
        next = suc (suc (suc h.next));
      } in
      let (bound, h1) = bind_first r id b.bind_addr registered in
      let (connected, h2) = connect_bound r id remote b.config.connect_timeout bound h1 in
      finish_connect-Owned id _ _ _ b.config.stream_id connected h2 (
        connect_bound-quiet id remote b.config.connect_timeout bound h1
        ∙ bind_first-quiet id b.bind_addr registered
        ∙ open_)

  -- A connect leaves no socket behind: where the I/O thread created one, the connect gives a handle of
  -- it, and has not closed it; or it has sent the socket's `Close`, which it does after a failed bind, a
  -- failed connect, a reply that is lost and a deadline that passes.
  pub connect-Owned :
      (b : SrtSocketBuilder) (remote : SocketAddr) (id : SocketId) (h : Sent)
      → r.id_reply (asked (IoCommand.create_socket b.config h.next) h) h.next ≡ some (ok id)
      → close_sent id h.commands ≡ false
      → let (made, h') = connect r b remote h in Owned (λ sock. sock.id) id made h'
  unfolding connect
  connect-Owned b remote id h created open_ =
      rw created (
        connect_created-Owned b remote id (asked (IoCommand.create_socket b.config h.next) h) open_)

  finish_group-Owned :
      (b : SrtGroupBuilder) (id : SocketId) (send recv status : Channel)
      (result : Result (Unit {0})) (h : Sent)
      → close_sent id h.commands ≡ false
      → let (made, h') = finish_group r b id send recv status result h in
        Owned (λ group. group.id) id made h'
  unfolding finish_group
  finish_group-Owned b id send recv status (ok connected) h open_ = (refl, open_)
  finish_group-Owned b id send recv status (err e) h open_ = rw (eqb_refl id) refl

  group_created-Owned :
      (b : SrtGroupBuilder) (id : SocketId) (h : Sent)
      → close_sent id h.commands ≡ false
      → let (made, h') = group_created r b (ok id) h in Owned (λ group. group.id) id made h'
  unfolding group_created
  group_created-Owned b id h open_ = finish_group-Owned b id _ _ _ _ _ open_

  checked-Owned :
      (b : SrtGroupBuilder) (checks : Result (Unit {0})) (id : SocketId) (h : Sent)
      → r.id_reply (asked (IoCommand.create_group (is_backup b.mode) b.config h.next) h) h.next
        ≡ some (ok id)
      → close_sent id h.commands ≡ false
      → let (made, h') = group_checked r b checks h in
        (is_ok checks ≡ true → Owned (λ group. group.id) id made h')
        × (is_ok checks ≡ false → (is_ok made ≡ false) × (h'.commands ≡ h.commands))
  unfolding group_checked
  checked-Owned b (err e) id h created open_ = (λ fine. cc, λ refused. (refl, refl))
  checked-Owned b (ok fine) id h created open_ = (
    λ passed. rw created (
        group_created-Owned b id
          (asked (IoCommand.create_group (is_backup b.mode) b.config h.next) h) open_),
    λ refused. cc,
  )

  endpoints-Owned :
      (b : SrtGroupBuilder) (eps : List GroupEndpoint) (id : SocketId) (h : Sent)
      → r.id_reply (asked (IoCommand.create_group (is_backup b.mode) b.config h.next) h) h.next
        ≡ some (ok id)
      → close_sent id h.commands ≡ false
      → let (made, h') = connect_endpoints r b eps h in
        (can_connect eps ≡ true → Owned (λ group. group.id) id made h')
        × (can_connect eps ≡ false → (is_ok made ≡ false) × (h'.commands ≡ h.commands))
  unfolding connect_endpoints
  endpoints-Owned b [] id h created open_ = (λ able. cc, λ unable. (refl, refl))
  endpoints-Owned b (ep ∷ eps) id h created open_ =
      checked-Owned b (check_all (ep ∷ eps)) id h created open_

  -- A group's connect leaves no group behind, where the I/O thread would create one: with endpoints that
  -- all pass their check, it gives a handle of the group, and has not closed it; or it has sent the
  -- group's `Close`. With no endpoint or a bad one it fails, and the I/O thread is sent nothing.
  pub connect_to_all-Owned :
      (b : SrtGroupBuilder) (id : SocketId) (h : Sent)
      → r.id_reply (asked (IoCommand.create_group (is_backup b.mode) b.config h.next) h) h.next
        ≡ some (ok id)
      → close_sent id h.commands ≡ false
      → let (made, h') = connect_to_all r b h in
        (can_connect b.endpoints ≡ true → Owned (λ group. group.id) id made h')
        × (can_connect b.endpoints ≡ false → (is_ok made ≡ false) × (h'.commands ≡ h.commands))
  unfolding connect_to_all
  connect_to_all-Owned b id h created open_ = endpoints-Owned b b.endpoints id h created open_

  -- A connection that `accept` takes from the accept channel is closed once, and not before its time:
  -- whether `accept` is dropped while it builds the socket or runs to its end, it has sent the
  -- connection's `Close` exactly where it hands out no socket; and once the socket it hands out, if one,
  -- is dropped, the `Close` has been sent exactly once.
  pub accept-closes_once :
      (id : SocketId) (abandoned : Bool) (h : Sent)
      → r.accepted h ≡ some id
      → let (taken, h1) = accept r abandoned h in
        let (dropped, h2) = drop_taken taken h1 in
        (closes id h1.commands ≡ (if holds_socket taken then 0 else 1) + closes id h.commands)
        × (closes id h2.commands ≡ suc (closes id h.commands))
  unfolding accept accept_from accept_taken from_accepted drop_unclaimed claim claimed close_socket
  accept-closes_once id true h waits = rw (waits, eqb_refl id) (omega arith, omega arith)
  accept-closes_once id false h waits = rw (waits, eqb_refl id) (omega arith, omega arith)
