-- ===== src/Bridge/Check/Others.antt =====
-- The periodic check and the sockets it is not about.
use bilbycast_libsrt_rs.Shared.{
  ℕ, ◌≡◌, refl, sym, ◌∙◌, ap, inl, inr, Bool, false, not, ◌&&◌, List, [], ◌∷◌, none, some, eqb,
  eqb_iff, any, is_empty, Bool-cases, Option-cases, leb, arith,
}
use bilbycast_libsrt_rs.Bridge.Libsrt.{SocketId, Row, Libsrt, History, instant_now}
use bilbycast_libsrt_rs.Bridge.Status.{is_terminal_status, is_init}
use bilbycast_libsrt_rs.Bridge.Plan.{contains}
use bilbycast_libsrt_rs.Bridge.Socket.{SocketState, Sockets, get, put}
use bilbycast_libsrt_rs.Bridge.Release.Sweep.{UniqueKeys}
use bilbycast_libsrt_rs.Bridge.Check.{
  check_group, groups_to_check, check_groups, check_listed, check_stranded_members, check_members,
}

get-put_other :
    (id k : SocketId) (st : SocketState) (m : Sockets)
    → eqb k id ≡ false
    → get id (put k st m) ≡ get id m
unfolding get put
get-put_other id k st [] other = refl
get-put_other id k st ((j, v) ∷ m) other =
    ground (arith, get-put_other id k st m other, eqb_iff j k, eqb_iff j id, eqb_iff k id)

-- A socket that needs a check of its members: it has some to watch, is past `Init` and is not dead.
abbrev pub needs_check : SocketState → Bool
needs_check st =
    not (is_empty st.watched)
    && not (is_init st.last_status)
    && not (is_terminal_status st.last_status)

groups_to_check-absent :
    (m : Sockets) (id : SocketId) → get id m ≡ none → contains (groups_to_check m) id ≡ false
unfolding groups_to_check get
groups_to_check-absent [] id gone = refl
groups_to_check-absent ((k, v) ∷ m) id gone = ground (arith, groups_to_check-absent m id)

groups_to_check-need :
    (m : Sockets) (id : SocketId) (st : SocketState)
    → UniqueKeys m
    → get id m ≡ some st
    → needs_check st ≡ false
    → contains (groups_to_check m) id ≡ false
unfolding groups_to_check get
groups_to_check-need [] id st unique there idle = refl
groups_to_check-need ((k, v) ∷ m) id st unique there idle = elim (Bool-cases (eqb k id)) [
  | inl same ↦
      let absent : get id m ≡ none = rw (sym ((eqb_iff k id).0 same)) unique.0 in
      let here : v ≡ st = ground (arith, same) in
      let v_idle : needs_check v ≡ false = ap needs_check here ∙ idle in
      ground (arith, same, v_idle, groups_to_check-absent m id absent)
  | inr other ↦
      let later : get id m ≡ some st = ground (arith, other) in
      ground (arith, other, groups_to_check-need m id st unique.1 later idle)
]

module _ (s : Libsrt) where
  check_group-others :
      (grp : SocketId) (sockets : Sockets) (buf : List Row) (now : ℕ) (h : History) (id : SocketId)
      → eqb grp id ≡ false
      → get id (check_group s grp sockets buf now h).0.0 ≡ get id sockets
  unfolding check_group
  check_group-others grp sockets buf now h id other = elim (Option-cases (get grp sockets)) [
    | inl untracked ↦ rw (untracked, check_group) refl
    | inr (st, tracked) ↦ elim (Bool-cases (any (λ w. leb w.not_before now) st.watched)) [
      | inl due ↦
          rw (tracked, check_group, due)
            (get-put_other id grp (check_members s grp st buf now h).0.0 sockets other)
      | inr later ↦ rw (tracked, check_group, later) refl
    ]
  ]

  check_groups-others :
      (groups : List SocketId) (sockets : Sockets) (buf : List Row) (now : ℕ) (h : History)
      (id : SocketId)
      → contains groups id ≡ false
      → get id (check_groups s groups sockets buf now h).0.0 ≡ get id sockets
  unfolding check_groups
  check_groups-others [] sockets buf now h id absent = refl
  check_groups-others (grp ∷ groups) sockets buf now h id absent =
      let ((sockets', buf'), h') = check_group s grp sockets buf now h in
      check_groups-others groups sockets' buf' now h' id (ground arith)
      ∙ check_group-others grp sockets buf now h id (ground arith)

  check_listed-others :
      (groups : List SocketId) (sockets : Sockets) (buf : List Row) (h : History) (id : SocketId)
      → contains groups id ≡ false
      → get id (check_listed s groups sockets buf h).0.0 ≡ get id sockets
  unfolding check_listed
  check_listed-others [] sockets buf h id absent = refl
  check_listed-others (grp ∷ groups) sockets buf h id absent =
      check_groups-others (grp ∷ groups) sockets buf (s.now h) (instant_now ∷ h) id absent

  -- The periodic check leaves every socket as it is that has no member to watch, is still at Init, or is
  -- dead: no such socket is revived or changed by the repair of another.
  pub check_stranded_members-others :
      (sockets : Sockets) (buf : List Row) (h : History) (id : SocketId) (st : SocketState)
      → UniqueKeys sockets
      → get id sockets ≡ some st
      → needs_check st ≡ false
      → get id (check_stranded_members s sockets buf h).0.0 ≡ some st
  unfolding check_stranded_members
  check_stranded_members-others sockets buf h id st unique there idle =
      check_listed-others (groups_to_check sockets) sockets buf h id
        (groups_to_check-need sockets id st unique there idle)
      ∙ there
