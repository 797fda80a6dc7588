-- ===== src/Bridge/Loop/Stranded.antt =====
-- What the mark of a member as stranded keeps of the sockets.
use bilbycast_libsrt_rs.Shared.{
  ℕ, ◌≡◌, Bool, true, false, List, [], ◌∷◌, Option, none, some, All, All-append, eqb, any,
  Bool-cases, Option-cases, inl, inr, arith,
}
use bilbycast_libsrt_rs.Bridge.Endpoint.{GroupEndpoint}
use bilbycast_libsrt_rs.Bridge.Libsrt.{SocketId, Channel, Libsrt, History}
use bilbycast_libsrt_rs.Bridge.Watch.{WatchedMember, new_watched}
use bilbycast_libsrt_rs.Bridge.Connect.{spawned_member}
use bilbycast_libsrt_rs.Bridge.Socket.{SocketState, Sockets, get}
use bilbycast_libsrt_rs.Bridge.Adding.{live_group}
use bilbycast_libsrt_rs.Bridge.Adding.Once.{live_group-facts}
use bilbycast_libsrt_rs.Bridge.Check.Repairs.{InLimit}
use bilbycast_libsrt_rs.Bridge.TestHook.{
  mark_forced, force_watched, force_member, force_in_group, force_stranded, strand_command,
}
use bilbycast_libsrt_rs.Bridge.Loop.Sound.{Good, Sound, get-Sound, put-Sound}

mark_forced-InLimit :
    (member : SocketId) (now : ℕ) (watched : List WatchedMember)
    → All InLimit watched
    → All InLimit (mark_forced member now watched)
unfolding mark_forced
mark_forced-InLimit member now [] limit = tt
mark_forced-InLimit member now (w ∷ watched) (here, later) = elim (Bool-cases (eqb w.id member)) [
  | inl same ↦ rw same (here, later)
  | inr other ↦ rw other (here, mark_forced-InLimit member now watched later)
]

module _ (s : Libsrt) where
  -- A member that has just been spawned was not replaced yet.
  pub spawned_member-InLimit :
      (id : SocketId) (ep : GroupEndpoint) (now : ℕ) (h : History)
      → InLimit (spawned_member s id ep now h).0
  unfolding spawned_member new_watched
  spawned_member-InLimit id ep now h = omega arith

  force_watched-Good :
      (is_watched : Bool) (member : SocketId) (ep : GroupEndpoint) (now : ℕ) (st : SocketState)
      (h : History)
      → st.is_group ≡ true
      → Good st
      → Good (force_watched s is_watched member ep now st h).0
  unfolding force_watched
  force_watched-Good true member ep now st h group (short, limit, caller) =
      (short, mark_forced-InLimit member now st.watched limit, λ no. ground (arith, group, no))
  force_watched-Good false member ep now st h group (short, limit, caller) = (
    short,
    All-append InLimit st.watched _ limit (spawned_member-InLimit member ep now h, tt),
    λ no. ground (arith, group, no),
  )

  force_member-Sound :
      (id : SocketId) (ep : GroupEndpoint) (st : SocketState) (sockets : Sockets)
      (o : Option SocketId) (h : History)
      → st.is_group ≡ true
      → Good st
      → Sound sockets
      → Sound (force_member s id ep st sockets o h).0.1
  unfolding force_member
  force_member-Sound id ep st sockets none h group good sound = sound
  force_member-Sound id ep st sockets (some member) h group good sound =
      put-Sound id _ sockets
        (force_watched-Good (any (λ w. eqb w.id member) st.watched) member ep _ st _ group good)
        sound

  force_stranded-Sound :
      (id : SocketId) (ep : GroupEndpoint) (sockets : Sockets) (h : History)
      → Sound sockets
      → Sound (force_stranded s id ep sockets h).0.1
  unfolding force_stranded force_in_group
  force_stranded-Sound id ep sockets h sound = elim (Option-cases (live_group (get id sockets))) [
    | inl dead ↦ rw (dead, force_in_group) sound
    | inr (st, live) ↦
        let (there, group, alive) = live_group-facts (get id sockets) st live in
        rw (live, force_in_group)
          (force_member-Sound id ep st sockets _ _ group
            (get-Sound id sockets {st = st} there sound) sound)
  ]

  pub strand_command-Sound :
      (id : SocketId) (ep : GroupEndpoint) (reply : Channel) (sockets : Sockets) (h : History)
      → Sound sockets
      → Sound (strand_command s id ep reply sockets h).0
  unfolding strand_command
  strand_command-Sound id ep reply sockets h sound = force_stranded-Sound id ep sockets h sound
