-- ===== src/Bridge/Adding/Once.antt =====
-- When `add_group_member` connects, and when it must not.
use mathlib.Core.List.{Memᴰ}
use bilbycast_libsrt_rs.Shared.{
  ◌≡◌, refl, ◌≢◌, ◌∙◌, true, false, List, [], ◌∷◌, Option, none, some, inl, inr, ℤ, eqb, Bool-cases,
  Option-cases, arith,
}
use bilbycast_libsrt_rs.Protocol.Config.{SocketStatus}
use bilbycast_libsrt_rs.Protocol.Error.{SrtError, ok, err}
use bilbycast_libsrt_rs.Bridge.Endpoint.{GroupEndpoint}
use bilbycast_libsrt_rs.Bridge.Libsrt.{SocketId, Row, Libsrt, History, srt_getsockstate}
use bilbycast_libsrt_rs.Bridge.Status.{
  is_terminal_status, raw_state_to_status, map_member_status, is_connected,
}
use bilbycast_libsrt_rs.Bridge.Plan.{in_flight, member_in_flight}
use bilbycast_libsrt_rs.Bridge.Check.Calls.{
  connects, Quiet-connects, member_in_flight-Quiet, read_group_rows-Quiet,
}
use bilbycast_libsrt_rs.Bridge.Connect.{read_group_rows}
use bilbycast_libsrt_rs.Bridge.Socket.{SocketState, Sockets, get}
use bilbycast_libsrt_rs.Bridge.Adding.{
  live_group, add_to_live, connect_unless_there, add_group_member,
}

-- The group can take a member: the bridge tracks it, has not seen it break, and libsrt says connected.
abbrev pub CanTake : Libsrt → SocketId → Sockets → History → Type 0
CanTake s id sockets h =
    (st : SocketState) × (get id sockets ≡ some st)
    × (st.is_group ≡ true)
    × (is_terminal_status st.last_status ≡ false)
    × (raw_state_to_status (s.getsockstate h id) ≡ SocketStatus.connected)

pub live_group-facts :
    (o : Option SocketState) (st : SocketState)
    → live_group o ≡ some st
    → (o ≡ some st) × (st.is_group ≡ true) × (is_terminal_status st.last_status ≡ false)
live_group-facts none st e = cc
live_group-facts (some st') st e = ground arith

connected_status :
    (status : SocketStatus) → is_connected status ≡ true → status ≡ SocketStatus.connected
connected_status SocketStatus.connected e = refl
connected_status SocketStatus.init e = cc
connected_status _ e = cc

module _ (s : Libsrt) where
  -- A group that cannot take a member, since the bridge does not track it as a live group or libsrt does
  -- not say it is connected, is never revived: the add fails with ConnectionLost, connects nothing and
  -- changes no state.
  pub refused_without_connect :
      (id : SocketId) (endpoint : GroupEndpoint) (sockets : Sockets) (h : History)
      → ¬ CanTake s id sockets h
      → let ((result, sockets'), h') = add_group_member s id endpoint sockets h in
        (result ≡ err SrtError.connection_lost) × (sockets' ≡ sockets) × (connects h' ≡ connects h)
  unfolding add_group_member add_to_live
  refused_without_connect id endpoint sockets h cannot =
      elim (Option-cases (live_group (get id sockets))) [
        | inl untracked ↦ rw (untracked, add_to_live) (refl, refl, refl)
        | inr (st, tracked) ↦
            elim (Bool-cases (is_connected (raw_state_to_status (s.getsockstate h id)))) [
              | inl up ↦
                  let (there, group, live) = live_group-facts (get id sockets) st tracked in
                  absurd (cannot (st, there, group, live, connected_status _ up))
              | inr down ↦ rw (tracked, add_to_live, down) (refl, refl, refl)
            ]
      ]

  -- A row with the token, not Broken, on a socket that libsrt never gives as dead.
  abbrev pub Taken : ℤ → Row → Type 0
  Taken token r =
      (eqb r.token token ≡ true)
      × ((h : History)
          → in_flight (map_member_status r.memberstate)
              (raw_state_to_status (s.getsockstate h r.id))
            ≡ true)

  member_in_flight-Taken :
      (rows : List Row) (token : ℤ) (h : History) (r : Row)
      → Memᴰ r rows
      → Taken token r
      → (member_in_flight s rows token [] h).0 ≢ none
  unfolding member_in_flight
  member_in_flight-Taken [] token h r m taken p = elim m [ ]
  member_in_flight-Taken (x ∷ rows) token h r (Memᴰ.head same) (here, live) p =
      ground (arith, same, here, live h)
  member_in_flight-Taken (x ∷ rows) token h r (Memᴰ.tail m) taken p = ground (
    arith,
    member_in_flight-Taken rows token h r m taken,
    member_in_flight-Taken rows token (srt_getsockstate x.id ∷ h) r m taken,
  )

  -- One handshake per endpoint: to a group that can take a member, adding a token that its listing shows
  -- on a member that is not Broken, and whose socket libsrt gives as not dead however often it is asked,
  -- succeeds, connects nothing and changes no state.
  pub one_handshake_per_token :
      (id : SocketId) (endpoint : GroupEndpoint) (sockets : Sockets) (h : History) (r : Row)
      → CanTake s id sockets h
      → Memᴰ r (read_group_rows s id [] (srt_getsockstate id ∷ h)).0
      → Taken endpoint.token r
      → let ((result, sockets'), h') = add_group_member s id endpoint sockets h in
        (result ≡ ok tt) × (sockets' ≡ sockets) × (connects h' ≡ connects h)
  unfolding add_group_member add_to_live connect_unless_there
  one_handshake_per_token id endpoint sockets h r (g, there, group, alive, up) listed taken =
      let (rows, h1) = read_group_rows s id [] (srt_getsockstate id ∷ h) in
      elim (Option-cases (member_in_flight s rows endpoint.token [] h1).0) [
        | inl missed ↦ absurd (member_in_flight-Taken rows endpoint.token h1 r listed taken missed)
        | inr (existing, found) ↦
            let quiet =
              Quiet-connects (member_in_flight s rows endpoint.token [])
                (member_in_flight-Quiet s rows endpoint.token []) h1
              ∙ Quiet-connects (read_group_rows s id []) (read_group_rows-Quiet s id [])
                  (srt_getsockstate id ∷ h) in
            rw (there, group, alive, add_to_live, up, found, connect_unless_there)
              (refl, refl, quiet)
      ]
