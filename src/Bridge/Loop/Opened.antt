-- ===== src/Bridge/Loop/Opened.antt =====
-- What `Listen` and `Connect` keep of the sockets.
use bilbycast_libsrt_rs.Shared.{ℤ, ◌≡◌, refl, true, Option, none, some, is_nonneg}
use bilbycast_libsrt_rs.Protocol.Config.{SocketStatus}
use bilbycast_libsrt_rs.Protocol.Error.{SrtError, Result, ok, err}
use bilbycast_libsrt_rs.Bridge.Endpoint.{SocketAddr}
use bilbycast_libsrt_rs.Bridge.Libsrt.{
  SocketId, RawState, Channel, Libsrt, History, srts_init, srts_opened, srts_listening,
  srts_connecting, srts_connected, srts_broken, srts_closing, srts_closed, srts_nonexist,
  other_state,
}
use bilbycast_libsrt_rs.Bridge.Socket.{SocketState, Sockets, get}
use bilbycast_libsrt_rs.Bridge.Release.{close_and_release}
use bilbycast_libsrt_rs.Bridge.Opening.{
  update_tracked, give_up, start_listening, listen_armed, listen, hold_connect, dispatch_connect,
  after_connect, connect,
}
use bilbycast_libsrt_rs.Bridge.Loop.Sound.{Sound, get-Sound, put-Sound, remove-Sound}
use bilbycast_libsrt_rs.Bridge.Loop.Parts.{update-Good, if-Sound}

module _ (s : Libsrt) where
  give_up-Sound :
      (id : SocketId) (sockets : Sockets) (error : SrtError) (reply : Channel) (h : History)
      → Sound sockets
      → Sound (give_up s id sockets error reply h).0
  unfolding give_up close_and_release
  give_up-Sound id sockets error reply h sound = remove-Sound id sockets sound

  start_listening-Sound :
      (id : SocketId) (sockets : Sockets) (o : Option SocketState) (h : History)
      → get id sockets ≡ o
      → Sound sockets
      → Sound (start_listening s id sockets o h).0
  unfolding start_listening
  start_listening-Sound id sockets none h at sound = sound
  start_listening-Sound id sockets (some st) h at sound =
      put-Sound id _ sockets
        (update-Good s (record st { is_listener = true }) SocketStatus.listening _
          (get-Sound id sockets {st = st} at sound))
        sound

  listen_armed-Sound :
      (id : SocketId) (backlog : ℤ) (reply : Channel) (sockets : Sockets) (r : Result (Unit {0}))
      (h : History)
      → Sound sockets
      → Sound (listen_armed s id backlog reply sockets r h).0
  unfolding listen_armed
  listen_armed-Sound id backlog reply sockets (err error) h sound =
      give_up-Sound id sockets error reply h sound
  listen_armed-Sound id backlog reply sockets (ok armed) h sound =
      if-Sound s (is_nonneg (s.listen h id backlog)) _ _ _
        (start_listening-Sound id sockets _ _ refl sound) (give_up-Sound id sockets _ reply _ sound)

  pub listen-Sound :
      (id : SocketId) (backlog : ℤ) (reply : Channel) (sockets : Sockets) (h : History)
      → Sound sockets
      → Sound (listen s id backlog reply sockets h).0
  unfolding listen
  listen-Sound id backlog reply sockets h sound =
      listen_armed-Sound id backlog reply sockets _ _ sound

  update_tracked-Sound :
      (id : SocketId) (status : SocketStatus) (sockets : Sockets) (o : Option SocketState)
      (h : History)
      → get id sockets ≡ o
      → Sound sockets
      → Sound (update_tracked id status sockets o h).0
  unfolding update_tracked
  update_tracked-Sound id status sockets none h at sound = sound
  update_tracked-Sound id status sockets (some st) h at sound =
      put-Sound id _ sockets (update-Good s st status h (get-Sound id sockets {st = st} at sound))
        sound

  hold_connect-Sound :
      (id : SocketId) (reply : Channel) (sockets : Sockets) (o : Option SocketState) (h : History)
      → get id sockets ≡ o
      → Sound sockets
      → Sound (hold_connect s id reply sockets o h).0
  unfolding hold_connect
  hold_connect-Sound id reply sockets none h at sound = sound
  hold_connect-Sound id reply sockets (some st) h at sound =
      put-Sound id _ sockets
        (update-Good s (record st { connect_reply = some reply }) SocketStatus.connecting h
          (get-Sound id sockets {st = st} at sound))
        sound

  dispatch_connect-Sound :
      (id : SocketId) (reply : Channel) (sockets : Sockets) (raw : RawState) (h : History)
      → Sound sockets
      → Sound (dispatch_connect s id reply sockets raw h).0
  unfolding dispatch_connect
  dispatch_connect-Sound id reply sockets srts_connected h sound =
      update_tracked-Sound id SocketStatus.connected sockets _ _ refl sound
  dispatch_connect-Sound id reply sockets srts_connecting h sound =
      hold_connect-Sound id reply sockets _ _ refl sound
  dispatch_connect-Sound id reply sockets srts_opened h sound =
      hold_connect-Sound id reply sockets _ _ refl sound
  dispatch_connect-Sound id reply sockets srts_init h sound =
      hold_connect-Sound id reply sockets _ _ refl sound
  dispatch_connect-Sound id reply sockets srts_listening h sound = sound
  dispatch_connect-Sound id reply sockets srts_broken h sound = sound
  dispatch_connect-Sound id reply sockets srts_closing h sound = sound
  dispatch_connect-Sound id reply sockets srts_closed h sound = sound
  dispatch_connect-Sound id reply sockets srts_nonexist h sound = sound
  dispatch_connect-Sound id reply sockets (other_state n) h sound = sound

  after_connect-Sound :
      (id : SocketId) (reply : Channel) (sockets : Sockets) (o : Option SrtError) (h : History)
      → Sound sockets
      → Sound (after_connect s id reply sockets o h).0
  unfolding after_connect
  after_connect-Sound id reply sockets (some error) h sound = sound
  after_connect-Sound id reply sockets none h sound =
      dispatch_connect-Sound id reply sockets _ _ sound

  pub connect-Sound :
      (id : SocketId) (addr : SocketAddr) (reply : Channel) (sockets : Sockets) (h : History)
      → Sound sockets
      → Sound (connect s id addr reply sockets h).0
  unfolding connect
  connect-Sound id addr reply sockets h sound = after_connect-Sound id reply sockets _ _ sound
