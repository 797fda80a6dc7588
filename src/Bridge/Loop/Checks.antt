-- ===== src/Bridge/Loop/Checks.antt =====
-- What the check of stranded members keeps of the sockets.
use bilbycast_libsrt_rs.Shared.{
  length, ◌++◌, ℕ, ◌≡◌, Bool, true, List, [], ◌∷◌, any, leb, Bool-cases, Option-cases, inl, inr,
  arith,
}
use bilbycast_libsrt_rs.Bridge.Libsrt.{SocketId, Row, Libsrt, History}
use bilbycast_libsrt_rs.Bridge.Socket.{SocketState, Sockets, get, update_status}
use bilbycast_libsrt_rs.Bridge.Check.{
  Look, read_live, sweep, settle, check_members, check_group, check_groups, check_listed,
  check_stranded_members, groups_to_check,
}
use bilbycast_libsrt_rs.Bridge.Check.Repairs.{check_members-repairs_bounded}
use bilbycast_libsrt_rs.Bridge.Loop.Sound.{Good, Sound, Keeps, get-Sound, put-Sound}
use bilbycast_libsrt_rs.Bridge.Connect.{read_group_rows}
use bilbycast_libsrt_rs.Bridge.Watch.{WatchedMember}

-- A state with a watched member is a caller group's.
caller_group :
    (st : SocketState) (p : WatchedMember → Bool)
    → any p st.watched ≡ true
    → Good st
    → st.is_group ≡ true
caller_group st p due (short, limit, caller) = elim (Bool-cases st.is_group) [
  | inl group ↦ group
  | inr single ↦ let nobody = caller single in ground (arith, nobody)
]

module _ (s : Libsrt) where
  settle-same : (grp : SocketId) (st : SocketState) (h : History) → Keeps st (settle s grp st h).0
  unfolding settle update_status
  settle-same grp st h = (ground arith, ground arith, ground arith)

  -- A group that is checked has watched members, so it is a caller group, and stays one.
  check_members-Good :
      (grp : SocketId) (st : SocketState) (buf : List Row) (now : ℕ) (h : History)
      → st.is_group ≡ true
      → Good st
      → Good (check_members s grp st buf now h).0.0
  unfolding check_members
  check_members-Good grp st buf now h group (short, limit, caller) =
      let bounded = check_members-repairs_bounded s grp st buf now h limit in
      let (ws, h1) = read_live s st.watched h in
      let (rows, h2) = read_group_rows s grp buf h1 in
      let look : Look = record { grp = grp; rows = rows; backup = st.backup; now = now } in
      let ((idx, m), h3) =
        sweep s (length st.watched) look 0 (record { watched = ws; spawned = [] }) h2 in
      let (backlog, watched, still) =
        settle-same grp (record st { watched = m.watched ++ m.spawned }) h3 in
      (rw backlog short, bounded, λ no. ground (arith, group, still, no))

  check_group-Sound :
      (grp : SocketId) (sockets : Sockets) (buf : List Row) (now : ℕ) (h : History)
      → Sound sockets
      → Sound (check_group s grp sockets buf now h).0.0
  unfolding check_group
  check_group-Sound grp sockets buf now h sound = elim (Option-cases (get grp sockets)) [
    | inl untracked ↦ rw (untracked, check_group) sound
    | inr (st, there) ↦ elim (Bool-cases (any (λ w. leb w.not_before now) st.watched)) [
      | inr idle ↦ rw (there, check_group, idle) sound
      | inl due ↦
          let good = get-Sound grp sockets {st = st} there sound in
          rw (there, check_group, due)
            (put-Sound grp _ sockets
              (check_members-Good grp st buf now h (caller_group st _ due good) good) sound)
    ]
  ]

  check_groups-Sound :
      (ids : List SocketId) (sockets : Sockets) (buf : List Row) (now : ℕ) (h : History)
      → Sound sockets
      → Sound (check_groups s ids sockets buf now h).0.0
  unfolding check_groups
  check_groups-Sound [] sockets buf now h sound = sound
  check_groups-Sound (grp ∷ groups) sockets buf now h sound =
      check_groups-Sound groups _ _ now _ (check_group-Sound grp sockets buf now h sound)

  check_listed-Sound :
      (ids : List SocketId) (sockets : Sockets) (buf : List Row) (h : History)
      → Sound sockets
      → Sound (check_listed s ids sockets buf h).0.0
  unfolding check_listed
  check_listed-Sound [] sockets buf h sound = sound
  check_listed-Sound (grp ∷ groups) sockets buf h sound =
      check_groups-Sound (grp ∷ groups) sockets buf _ _ sound

  pub check_stranded_members-Sound :
      (sockets : Sockets) (buf : List Row) (h : History)
      → Sound sockets
      → Sound (check_stranded_members s sockets buf h).0.0
  unfolding check_stranded_members
  check_stranded_members-Sound sockets buf h sound =
      check_listed-Sound (groups_to_check sockets) sockets buf h sound
