-- ===== src/Bridge/Check.antt =====
-- srt-transport/src/epoll_bridge.rs: the periodic check of a group's watched members (`check_group`,
-- `repair_stranded`).
pub mod Calls
pub mod Ownership
pub mod Progress
pub mod Repairs
pub mod Budget
pub mod Order
pub mod Overlap
pub mod Repaired
pub mod Others
pub mod Accounts
use bilbycast_libsrt_rs.Shared.{
  ℕ, zero, suc, ◌+◌, Bool, true, false, not, ◌&&◌, List, [], ◌∷◌, ◌++◌, Option, none, some, eqb,
  any, find, ltb, leb, if◌then◌else◌, is_empty, get_elem?, set, swap_remove, length,
}
use bilbycast_libsrt_rs.Protocol.Config.{SocketStatus, MemberStatus}
use bilbycast_libsrt_rs.Protocol.Error.{Result, ok, err}
use bilbycast_libsrt_rs.Bridge.Libsrt.{
  SocketId, Row, Libsrt, Io, ◌>>=◌, ◌>>◌, pure, get_state, close, now as clock, count_repair,
}
use bilbycast_libsrt_rs.Bridge.Status.{
  is_terminal_status, raw_state_to_status, map_member_status, is_connected, is_connecting, is_init,
}
use bilbycast_libsrt_rs.Bridge.Watch.{
  WatchedMember, Verdict, classify_watched, Step, keep, recheck, drop, abandon, repair, next_step,
}
use bilbycast_libsrt_rs.Bridge.Plan.{
  RepairPlan, close_now, join_sibling, hand_to_sibling, close_then_spawn, spawn_then_close, wait,
  repair_chain, plan_repair,
}
use bilbycast_libsrt_rs.Bridge.Connect.{
  single, read_group_rows, superseded_linger, spawned_member, connect_group,
}
use bilbycast_libsrt_rs.Bridge.Socket.{SocketState, Sockets, get, put, update_status}

unfoldable pub close_members : List SocketId → Io (Unit {0})
close_members [] = pure tt
close_members (id ∷ ids) = do close id; close_members ids

-- What a check works on: the members watched, and the replacements spawned in this check.
pub record Members : Type 0 where
  pub watched : List WatchedMember
  pub spawned : List WatchedMember

-- The watched members, and then the replacements: the first with the id takes the chain.
unfoldable pub hand_over :
    SocketId → List SocketId → List WatchedMember → Option (List WatchedMember)
hand_over other chain [] = none
hand_over other chain (e ∷ es) =
    let rest = hand_over other chain es in
    if eqb e.id other
    then some (record e { supersedes = e.supersedes ++ chain } ∷ es)
    else elim rest [ none ↦ none | some es' ↦ some (e ∷ es') ]

-- The chain handed to a member by its id, in the watched ones first; `none` where there is none.
unfoldable pub hand_chain : SocketId → List SocketId → Members → Option Members
unfolding hand_over
hand_chain other chain m = elim (hand_over other chain m.watched) [
  | some watched ↦ some (record m { watched = watched })
  | none ↦ elim (hand_over other chain m.spawned) [
    | some spawned ↦ some (record m { spawned = spawned })
    | none ↦ none
  ]
]

module _ (s : Libsrt) where
  -- The match of `repair_stranded` on the outcome of connecting the endpoint again.
  unfoldable pub after_connect :
      WatchedMember → (close_first : Bool) → Members → (now : ℕ) → Result SocketId → Io Members
  after_connect w close_first m now (ok new) = do
    next ← spawned_member s new w.endpoint now
    let supersedes = if close_first then next.supersedes else repair_chain w
    let replacement = record next { repairs = w.repairs + 1; supersedes = supersedes }
    pure (record m { spawned = m.spawned ++ replacement ∷ [] })
  after_connect w close_first m now (err e) = do
    if close_first then pure tt else close_members (repair_chain w)
    pure m

  -- The two arms of `repair_stranded` that connect the endpoint again.
  unfoldable pub respawn :
      SocketId → WatchedMember → (close_first : Bool) → Members → (now : ℕ) → Io Members
  respawn grp w close_first m now = do
    if close_first then close_members (repair_chain w) else pure tt
    connected ← connect_group s grp (w.endpoint ∷ [])
    after_connect w close_first m now (single connected)

  -- The match of `repair_stranded` on the plan, which is never `wait`: the source's `unreachable!`.
  unfoldable pub carry_out :
      SocketId → WatchedMember → RepairPlan → Members → (now : ℕ) → Io Members
  carry_out grp w (join_sibling other) m now = do close_members (repair_chain w); pure m
  carry_out grp w (hand_to_sibling other) m now = elim (hand_chain other (repair_chain w) m) [
    | some m' ↦ pure m'
    | none ↦ do close_members (repair_chain w); pure m
  ]
  carry_out grp w close_now m now = do close_members (repair_chain w); pure m
  carry_out grp w close_then_spawn m now = respawn grp w true m now
  carry_out grp w spawn_then_close m now = respawn grp w false m now
  carry_out grp w wait m now = pure m

  -- The process-wide count of repairs leaves out those that the test hook forced.
  unfoldable pub repair_stranded :
      SocketId → WatchedMember → RepairPlan → Members → (now : ℕ) → Io Members
  repair_stranded grp w plan m now = do
    if w.forced then pure tt else count_repair
    carry_out grp w plan m now

  -- `*w.close_superseded_at.get_or_insert_with(..)`
  unfoldable pub due_at : WatchedMember → (now : ℕ) → Io ℕ
  due_at w now = elim w.close_superseded_at [
    | some at ↦ pure at
    | none ↦ do linger ← superseded_linger s w.id; pure (now + linger)
  ]

  unfoldable pub close_superseded : WatchedMember → (now : ℕ) → Io WatchedMember
  close_superseded w now = if is_empty w.supersedes then pure w else (do
    at ← due_at w now
    if leb at now
        then (do
          close_members w.supersedes
          pure (record w { supersedes = []; close_superseded_at = some at }))
        else pure (record w { close_superseded_at = some at }))

  -- A member that is up closes what it replaced once its linger is over.
  unfoldable pub close_when_due : WatchedMember → Verdict → (now : ℕ) → Io WatchedMember
  close_when_due w Verdict.confirmed now = close_superseded w now
  close_when_due w Verdict.masked now = close_superseded w now
  close_when_due w _ now = pure w

-- The member's row, as `classify_watched` takes it.
abbrev pub row_of : List Row → SocketId → Option (MemberStatus × SocketStatus)
row_of rows id = elim (find (λ r. eqb r.id id) rows) [
  | none ↦ none
  | some r ↦ some (map_member_status r.memberstate, raw_state_to_status r.sockstate)
]

-- `verdict == Verdict::BrokenLive`
abbrev pub is_broken_live : Verdict → Bool
is_broken_live Verdict.broken_live = true
is_broken_live _ = false

-- The facts that one check of a group holds fixed.
pub record Look : Type 0 where
  pub grp : SocketId
  pub rows : List Row
  pub backup : Bool
  pub now : ℕ

module _ (s : Libsrt) where
  -- The match of `check_group` on the plan: a member that waits stays, any other plan is carried out.
  unfoldable pub follow : Look → (idx : ℕ) → WatchedMember → Members → RepairPlan → Io (ℕ × Members)
  follow l idx w m wait =
      pure (idx + 1, record m { watched = set m.watched idx (record w { waiting = true }) })
  follow l idx w m plan = do
    m' ← repair_stranded s l.grp w plan (record m { watched = swap_remove m.watched idx }) l.now
    pure (idx, m')

  -- The match of `check_group` on the step: the next index, and the members as it leaves them. `w` is
  -- the member at `idx`, as `next_step` left it there.
  unfoldable pub act :
      Look → (idx : ℕ) → WatchedMember → Verdict → Members → Step → Io (ℕ × Members)
  act l idx w verdict m keep = pure (idx + 1, m)
  act l idx w verdict m (recheck at) =
      pure (idx + 1, record m { watched = set m.watched idx (record w { not_before = at }) })
  act l idx w verdict m drop = do
    close_members w.supersedes
    pure (idx, record m { watched = swap_remove m.watched idx })
  act l idx w verdict m abandon = do
    close_members (w.id ∷ [])
    close_members w.supersedes
    pure (idx, record m { watched = swap_remove m.watched idx })
  act l idx w verdict m repair = do
    plan ← plan_repair s w (is_broken_live verdict) m.watched m.spawned l.rows l.now
    follow l idx w m plan

  -- The body of the loop over the watched members, at the member that stands at `idx`.
  unfoldable pub look_at : Look → (idx : ℕ) → WatchedMember → Members → Io (ℕ × Members)
  look_at l idx w m = if ltb l.now w.not_before then pure (idx + 1, m) else (do
    let verdict = classify_watched w.live (row_of l.rows w.id) w.forced l.backup
    due ← close_when_due s w verdict l.now
    let (w', step) = next_step due verdict l.now
    act l idx w' verdict (record m { watched = set m.watched idx w' }) step)

  -- The loop `while idx < watched.len()`, on fuel.
  unfoldable pub sweep : (fuel : ℕ) → Look → (idx : ℕ) → Members → Io (ℕ × Members)
  sweep zero l idx m = pure (idx, m)
  sweep (suc fuel) l idx m = elim (get_elem? m.watched idx) [
    | none ↦ pure (idx, m)
    | some w ↦ do (idx', m') ← look_at l idx w m; sweep fuel l idx' m'
  ]

  -- The live state of each watched member, read before the listing.
  unfoldable pub read_live : List WatchedMember → Io (List WatchedMember)
  read_live [] = pure []
  read_live (w ∷ ws) = do
    raw ← get_state s w.id
    rest ← read_live ws
    pure (record w { live = raw_state_to_status raw } ∷ rest)

  -- The end of `check_group`: a group held at Connecting is taken to Connected once libsrt says so.
  unfoldable pub settle : SocketId → SocketState → Io SocketState
  settle grp st =
      if is_connecting st.last_status
      then (do
        raw ← get_state s grp
        if is_connected (raw_state_to_status raw)
            then update_status st SocketStatus.connected
            else pure st)
      else pure st

  unfoldable pub check_members :
      SocketId → SocketState → List Row → (now : ℕ) → Io (SocketState × List Row)
  check_members grp st buf now = do
    watched ← read_live st.watched
    rows ← read_group_rows s grp buf
    (idx, m) ←
        sweep (length st.watched) (record { grp = grp; rows = rows; backup = st.backup; now = now })
          0 (record { watched = watched; spawned = [] })
    st' ← settle grp (record st { watched = m.watched ++ m.spawned })
    pure (st', rows)

  unfoldable pub check_group : SocketId → Sockets → List Row → (now : ℕ) → Io (Sockets × List Row)
  check_group grp sockets buf now = elim (get grp sockets) [
    | none ↦ pure (sockets, buf)
    | some st ↦
        if any (λ w. leb w.not_before now) st.watched
        then (do (st', rows) ← check_members grp st buf now; pure (put grp st' sockets, rows))
        else pure (sockets, buf)
  ]

-- The groups with watched members that are past `Init` and not dead.
unfoldable pub groups_to_check : Sockets → List SocketId
groups_to_check [] = []
groups_to_check ((id, st) ∷ m) =
    let rest = groups_to_check m in
    if not (is_empty st.watched)
      && not (is_init st.last_status)
      && not (is_terminal_status st.last_status)
    then id ∷ rest
    else rest

module _ (s : Libsrt) where
  unfoldable pub check_groups :
      List SocketId → Sockets → List Row → (now : ℕ) → Io (Sockets × List Row)
  check_groups [] sockets buf now = pure (sockets, buf)
  check_groups (grp ∷ groups) sockets buf now = do
    (sockets', buf') ← check_group s grp sockets buf now
    check_groups groups sockets' buf' now

  -- The part after the list of groups is made: the clock is read only where there is one.
  unfoldable pub check_listed : List SocketId → Sockets → List Row → Io (Sockets × List Row)
  check_listed [] sockets buf = pure (sockets, buf)
  check_listed (grp ∷ groups) sockets buf = do
    now ← clock s
    check_groups (grp ∷ groups) sockets buf now

  unfoldable pub check_stranded_members : Sockets → List Row → Io (Sockets × List Row)
  check_stranded_members sockets buf = check_listed (groups_to_check sockets) sockets buf
