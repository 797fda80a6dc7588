-- ===== src/Bridge/Grouping.antt =====
-- srt-transport/src/epoll_bridge.rs: groups created, connected and extended (`CreateGroup`,
-- `ConnectGroup` and `AddGroupMember` of `process_command`).
use bilbycast_libsrt_rs.Shared.{
  ℕ, Bool, true, false, List, [], ◌∷◌, ◌++◌, Option, none, some, is_nonneg, if◌then◌else◌,
}
use bilbycast_libsrt_rs.Protocol.Config.{SocketStatus, SrtConfig}
use bilbycast_libsrt_rs.Protocol.Error.{SrtError, Result, ok, err}
use bilbycast_libsrt_rs.Bridge.Endpoint.{GroupEndpoint}
use bilbycast_libsrt_rs.Bridge.Libsrt.{
  SocketId, Channel, Libsrt, Io, ◌>>=◌, ◌>>◌, pure, call, ask, now as clock, srt_create_group,
  srt_epoll_add_usock, id_reply, reply_send,
}
use bilbycast_libsrt_rs.Bridge.Watch.{WatchedMember}
use bilbycast_libsrt_rs.Bridge.Connect.{GroupConnect, connect_group, spawned_member}
use bilbycast_libsrt_rs.Bridge.Adding.{add_group_member}
use bilbycast_libsrt_rs.Bridge.Socket.{SocketState, Sockets, get, put, update_status}
use bilbycast_libsrt_rs.Bridge.Registering.{insert, new_state, drop_state}
use bilbycast_libsrt_rs.Bridge.Opening.{configure, last_srt_error}

module _ (s : Libsrt) where
  unfoldable pub create_group : (backup : Bool) → SrtConfig → Channel → Sockets → Io Sockets
  create_group backup config reply sockets = do
    grp ← ask (λ h. s.create_group h backup) (srt_create_group backup)
    if is_nonneg grp
        then (do
          configure grp config
          drop_state grp (get grp sockets)
          call (id_reply reply (ok grp))
          pure (insert grp (new_state false true backup) sockets))
        else (do error ← last_srt_error s; call (id_reply reply (err error)); pure sockets)

  -- The members that were spawned, each with its endpoint.
  unfoldable pub watch_spawned :
      (now : ℕ) → List GroupEndpoint → List (Result SocketId) → Io (List WatchedMember)
  watch_spawned now (ep ∷ eps) (ok member ∷ members) = do
    w ← spawned_member s member ep now
    rest ← watch_spawned now eps members
    pure (w ∷ rest)
  watch_spawned now (ep ∷ eps) (err error ∷ members) = watch_spawned now eps members
  watch_spawned now _ _ = pure []

  -- Only a caller group is watched.
  unfoldable pub watch_members :
      SocketState → List GroupEndpoint → List (Result SocketId) → (is_group : Bool) → Io SocketState
  watch_members st endpoints members false = pure st
  watch_members st endpoints members true = do
    now ← clock s
    spawned ← watch_spawned now endpoints members
    pure (record st { watched = st.watched ++ spawned })

  unfoldable pub group_connected :
      SocketId
      → List GroupEndpoint
      → List (Result SocketId)
      → Sockets
      → Option SocketState
      → Io Sockets
  group_connected id endpoints members sockets none = pure sockets
  group_connected id endpoints members sockets (some st) = do
    st' ← update_status st SocketStatus.connected
    st'' ← watch_members st' endpoints members st'.is_group
    pure (put id st'' sockets)

  unfoldable pub connect_group_refused :
      SocketId
      → List GroupEndpoint
      → Channel
      → Sockets
      → GroupConnect
      → Option SrtError
      → Io Sockets
  connect_group_refused id endpoints reply sockets spawned (some error) = do
    call (reply_send reply (err error))
    pure sockets
  connect_group_refused id endpoints reply sockets spawned none = do
    call (srt_epoll_add_usock id)
    sockets' ← group_connected id endpoints spawned.members sockets (get id sockets)
    call (reply_send reply (ok tt))
    pure sockets'

  unfoldable pub connect_group_command :
      SocketId → List GroupEndpoint → Channel → Sockets → Io Sockets
  connect_group_command id endpoints reply sockets = do
    spawned ← connect_group s id endpoints
    connect_group_refused id endpoints reply sockets spawned spawned.refused

  unfoldable pub add_member_command : SocketId → GroupEndpoint → Channel → Sockets → Io Sockets
  add_member_command id endpoint reply sockets = do
    (added, sockets') ← add_group_member s id endpoint sockets
    call (reply_send reply added)
    pure sockets'
