-- ===== src/Bridge/Loop/Commanded.antt =====
-- What a command keeps of the sockets.
use bilbycast_libsrt_rs.Shared.{
  ℕ, ◌≡◌, refl, Bool, true, false, List, [], ◌∷◌, Option, none, some, All, All-append, is_nonneg,
  Text, Bool-cases, Option-cases, inl, inr, arith,
}
use bilbycast_libsrt_rs.Protocol.Config.{SrtConfig, SocketStatus}
use bilbycast_libsrt_rs.Protocol.Error.{SrtError, Result, ok, err}
use bilbycast_libsrt_rs.Bridge.Endpoint.{GroupEndpoint}
use bilbycast_libsrt_rs.Bridge.Address.{Endian}
use bilbycast_libsrt_rs.Bridge.Libsrt.{SocketId, Channel, Libsrt, History}
use bilbycast_libsrt_rs.Bridge.Status.{is_connected, raw_state_to_status, same_status}
use bilbycast_libsrt_rs.Bridge.Socket.{SocketState, Sockets, get}
use bilbycast_libsrt_rs.Bridge.Check.Repairs.{InLimit}
use bilbycast_libsrt_rs.Bridge.Connect.{GroupConnect}
use bilbycast_libsrt_rs.Bridge.Adding.{
  live_group, watch_added, connect_unless_there, add_to_live, add_group_member,
}
use bilbycast_libsrt_rs.Bridge.Adding.Once.{live_group-facts}
use bilbycast_libsrt_rs.Bridge.Release.{close_and_release}
use bilbycast_libsrt_rs.Bridge.Command.{IoCommand}
use bilbycast_libsrt_rs.Bridge.Commands.{process_command}
use bilbycast_libsrt_rs.Bridge.Registering.{
  or_new, correct_status, with_access_control, register_socket, register_listener, close_command,
}
use bilbycast_libsrt_rs.Bridge.Grouping.{
  create_group, watch_spawned, watch_members, group_connected, connect_group_refused,
  connect_group_command, add_member_command,
}
use bilbycast_libsrt_rs.Bridge.Loop.Sound.{
  Good, Sound, get-Sound, put-Sound, insert-Sound, remove-Sound, new_state-Good,
}
use bilbycast_libsrt_rs.Bridge.Loop.Parts.{update-Good, if-Sound}
use bilbycast_libsrt_rs.Bridge.Loop.Stranded.{spawned_member-InLimit, strand_command-Sound}
use bilbycast_libsrt_rs.Bridge.Loop.Opened.{listen-Sound, connect-Sound}

-- The state of an entry that is there, or of a new one.
or_new-Good :
    (id : SocketId) (sockets : Sockets) (o : Option SocketState) (fresh : SocketState)
    → get id sockets ≡ o
    → Good fresh
    → Sound sockets
    → Good (or_new o fresh)
or_new-Good id sockets none fresh at new sound = new
or_new-Good id sockets (some st) fresh at new sound = get-Sound id sockets {st = st} at sound

module _ (s : Libsrt) where
  correct_status-Good :
      (id : SocketId) (st : SocketState) (group : Bool) (h : History)
      → Good st
      → Good (correct_status s id st group h).0
  unfolding correct_status
  correct_status-Good id st true h good = good
  correct_status-Good id st false h good =
      elim (Bool-cases (same_status (raw_state_to_status (s.getsockstate h id)) st.last_status)) [
        | inl same ↦ rw same good
        | inr new ↦ rw new (update-Good s st _ _ good)
      ]

  register_socket-Sound :
      (id : SocketId) (recv_tx send_rx status_tx : Channel) (sockets : Sockets) (h : History)
      → Sound sockets
      → Sound (register_socket s id recv_tx send_rx status_tx sockets h).0
  unfolding register_socket
  register_socket-Sound id recv_tx send_rx status_tx sockets h sound =
      insert-Sound id _ sockets
        (correct_status-Good id _ _ h
          (or_new-Good id sockets _ _ refl (new_state-Good false false false) sound))
        sound

with_access_control-Good :
    (id : SocketId) (st : SocketState) (ac : Option ℕ) (h : History)
    → Good st
    → Good (with_access_control id st ac h).0
with_access_control-Good id st none h good = good
with_access_control-Good id st (some ac) h good = good

register_listener-Sound :
    (id : SocketId) (accept_tx : Channel) (ac : Option ℕ) (sockets : Sockets) (h : History)
    → Sound sockets
    → Sound (register_listener id accept_tx ac sockets h).0
unfolding register_listener
register_listener-Sound id accept_tx ac sockets h sound =
    insert-Sound id _ sockets
      (with_access_control-Good id _ ac h
        (or_new-Good id sockets _ _ refl (new_state-Good true false false) sound))
      sound

create_group-Sound :
    (s : Libsrt) (backup : Bool) (config : SrtConfig) (reply : Channel) (sockets : Sockets)
    (h : History)
    → Sound sockets
    → Sound (create_group s backup config reply sockets h).0
unfolding create_group
create_group-Sound s backup config reply sockets h sound =
    if-Sound s (is_nonneg (s.create_group h backup)) _ _ _
      (insert-Sound _ _ sockets (new_state-Good false true backup) sound) sound

module _ (s : Libsrt) where
  watch_spawned-InLimit :
      (now : ℕ) (eps : List GroupEndpoint) (members : List (Result SocketId)) (h : History)
      → All InLimit (watch_spawned s now eps members h).0
  unfolding watch_spawned
  watch_spawned-InLimit now [] members h = tt
  watch_spawned-InLimit now (ep ∷ eps) [] h = tt
  watch_spawned-InLimit now (ep ∷ eps) (ok member ∷ members) h =
      (spawned_member-InLimit s member ep now h, watch_spawned-InLimit now eps members _)
  watch_spawned-InLimit now (ep ∷ eps) (err error ∷ members) h =
      watch_spawned-InLimit now eps members h

  watch_members-Good :
      (st : SocketState) (eps : List GroupEndpoint) (members : List (Result SocketId))
      (group : Bool) (h : History)
      → st.is_group ≡ group
      → Good st
      → Good (watch_members s st eps members group h).0
  unfolding watch_members
  watch_members-Good st eps members false h at good = good
  watch_members-Good st eps members true h at (short, limit, caller) = (
    short,
    All-append InLimit st.watched _ limit (watch_spawned-InLimit _ eps members _),
    λ no. ground (arith, at, no),
  )

  group_connected-Sound :
      (id : SocketId) (eps : List GroupEndpoint) (members : List (Result SocketId))
      (sockets : Sockets) (o : Option SocketState) (h : History)
      → get id sockets ≡ o
      → Sound sockets
      → Sound (group_connected s id eps members sockets o h).0
  unfolding group_connected
  group_connected-Sound id eps members sockets none h at sound = sound
  group_connected-Sound id eps members sockets (some st) h at sound =
      put-Sound id _ sockets
        (watch_members-Good _ eps members _ _ refl
          (update-Good s st SocketStatus.connected h (get-Sound id sockets {st = st} at sound)))
        sound

  connect_group_refused-Sound :
      (id : SocketId) (eps : List GroupEndpoint) (reply : Channel) (sockets : Sockets)
      (spawned : GroupConnect) (o : Option SrtError) (h : History)
      → Sound sockets
      → Sound (connect_group_refused s id eps reply sockets spawned o h).0
  unfolding connect_group_refused
  connect_group_refused-Sound id eps reply sockets spawned (some error) h sound = sound
  connect_group_refused-Sound id eps reply sockets spawned none h sound =
      group_connected-Sound id eps spawned.members sockets _ _ refl sound

  connect_group_command-Sound :
      (id : SocketId) (eps : List GroupEndpoint) (reply : Channel) (sockets : Sockets) (h : History)
      → Sound sockets
      → Sound (connect_group_command s id eps reply sockets h).0
  unfolding connect_group_command
  connect_group_command-Sound id eps reply sockets h sound =
      connect_group_refused-Sound id eps reply sockets _ _ _ sound

  watch_added-Sound :
      (id : SocketId) (ep : GroupEndpoint) (st : SocketState) (sockets : Sockets)
      (r : Result SocketId) (h : History)
      → st.is_group ≡ true
      → Good st
      → Sound sockets
      → Sound (watch_added s id ep st sockets r h).0.1
  unfolding watch_added
  watch_added-Sound id ep st sockets (err error) h group good sound = sound
  watch_added-Sound id ep st sockets (ok member) h group (short, limit, caller) sound =
      put-Sound id _ sockets
        (
          short,
          All-append InLimit st.watched _ limit (spawned_member-InLimit s member ep _ _, tt),
          λ no. ground (arith, group, no),
        )
        sound

  connect_unless_there-Sound :
      (id : SocketId) (ep : GroupEndpoint) (st : SocketState) (sockets : Sockets)
      (existing : Option SocketId) (h : History)
      → st.is_group ≡ true
      → Good st
      → Sound sockets
      → Sound (connect_unless_there s id ep st sockets existing h).0.1
  unfolding connect_unless_there
  connect_unless_there-Sound id ep st sockets (some existing) h group good sound = sound
  connect_unless_there-Sound id ep st sockets none h group good sound =
      watch_added-Sound id ep st sockets _ _ group good sound

  add_group_member-Sound :
      (id : SocketId) (ep : GroupEndpoint) (sockets : Sockets) (h : History)
      → Sound sockets
      → Sound (add_group_member s id ep sockets h).0.1
  unfolding add_group_member add_to_live
  add_group_member-Sound id ep sockets h sound = elim (Option-cases (live_group (get id sockets))) [
    | inl dead ↦ rw (dead, add_to_live) sound
    | inr (st, live) ↦
        let (there, group, alive) = live_group-facts (get id sockets) st live in
        elim (Bool-cases (is_connected (raw_state_to_status (s.getsockstate h id)))) [
          | inr down ↦ rw (live, add_to_live, down) sound
          | inl up ↦
              rw (live, add_to_live, up)
                (connect_unless_there-Sound id ep st sockets _ _ group
                  (get-Sound id sockets {st = st} there sound) sound)
        ]
  ]

  add_member_command-Sound :
      (id : SocketId) (ep : GroupEndpoint) (reply : Channel) (sockets : Sockets) (h : History)
      → Sound sockets
      → Sound (add_member_command s id ep reply sockets h).0
  unfolding add_member_command
  add_member_command-Sound id ep reply sockets h sound =
      add_group_member-Sound id ep sockets h sound

module _ (s : Libsrt) (e : Endian) (from_utf8_lossy : List ℕ → Text) where
  pub process_command-Sound :
      (cmd : IoCommand) (sockets : Sockets) (h : History)
      → Sound sockets
      → Sound (process_command s e from_utf8_lossy cmd sockets h).0.1
  unfolding process_command close_command close_and_release
  process_command-Sound (IoCommand.create_socket config reply) sockets h sound = sound
  process_command-Sound (IoCommand.bind id addr reply) sockets h sound = sound
  process_command-Sound (IoCommand.listen id backlog reply) sockets h sound =
      listen-Sound s id backlog reply sockets h sound
  process_command-Sound (IoCommand.connect id addr reply) sockets h sound =
      connect-Sound s id addr reply sockets h sound
  process_command-Sound (IoCommand.register_socket id recv_tx send_rx status_tx) sockets h sound =
      register_socket-Sound s id recv_tx send_rx status_tx sockets h sound
  process_command-Sound (IoCommand.register_listener id accept_tx ac) sockets h sound =
      register_listener-Sound id accept_tx ac sockets h sound
  process_command-Sound (IoCommand.get_stats id reply) sockets h sound = sound
  process_command-Sound (IoCommand.get_state id reply) sockets h sound = sound
  process_command-Sound (IoCommand.get_peer_addr id reply) sockets h sound = sound
  process_command-Sound (IoCommand.get_local_addr id reply) sockets h sound = sound
  process_command-Sound (IoCommand.get_stream_id id reply) sockets h sound = sound
  process_command-Sound (IoCommand.close id) sockets h sound = remove-Sound id sockets sound
  process_command-Sound (IoCommand.create_group backup config reply) sockets h sound =
      create_group-Sound s backup config reply sockets h sound
  process_command-Sound (IoCommand.connect_group id eps reply) sockets h sound =
      connect_group_command-Sound s id eps reply sockets h sound
  process_command-Sound (IoCommand.add_group_member id ep reply) sockets h sound =
      add_member_command-Sound s id ep reply sockets h sound
  process_command-Sound (IoCommand.test_strand_member id ep reply) sockets h sound =
      strand_command-Sound s id ep reply sockets h sound
  process_command-Sound (IoCommand.get_group_member_stats id reply) sockets h sound = sound
  process_command-Sound IoCommand.shutdown sockets h sound = sound
