-- ===== src/Bridge/Check/Ownership.antt =====
-- The sockets that a replacement superseded, over one check of a group (`check_group`).
use bilbycast_libsrt_rs.Shared.{
  ℕ, zero, suc, ◌≡◌, ◌≢◌, refl, ap, inl, inr, true, ◌||◌, List, [], ◌∷◌, ◌++◌, some, arith, any,
  any-append, any-swap_remove, set, get_elem?-set_self, get_elem?, swap_remove, length,
  Option-cases,
}
use bilbycast_libsrt_rs.Bridge.Libsrt.{SocketId, Row, Libsrt, History, srt_getsockstate}
use bilbycast_libsrt_rs.Bridge.Watch.{
  WatchedMember, Verdict, Step, keep, recheck, drop, abandon, repair, next_step, classify_watched,
}
use bilbycast_libsrt_rs.Bridge.Plan.{
  contains, plan_repair, repair_chain, RepairPlan, join_sibling, hand_to_sibling, wait,
}
use bilbycast_libsrt_rs.Bridge.Check.{
  Members, close_members, repair_stranded, close_when_due, close_superseded, due_at, row_of, follow,
  act, look_at, Look, read_live, settle, sweep, check_members, is_broken_live,
}
use bilbycast_libsrt_rs.Bridge.Connect.{read_group_rows, superseded_linger}
use bilbycast_libsrt_rs.Bridge.Socket.{SocketState, update_status}
use bilbycast_libsrt_rs.Bridge.Check.Calls.{
  closed, contains-append, closed-close_members, plan_repair-Quiet, superseded_linger-Quiet,
  Quiet-closed,
}
use bilbycast_libsrt_rs.Bridge.Check.Accounts.{
  holds, accounted, Accounts, set-Accounts, remove-Accounts, next_step-supersedes,
  repair_stranded-Accounts,
}

module _ (s : Libsrt) where
  due_at-Quiet :
      (w : WatchedMember) (now : ℕ) (h : History) → closed (due_at s w now h).1 ≡ closed h
  unfolding due_at
  due_at-Quiet w now h =
      ground (arith, Quiet-closed (superseded_linger s w.id) (superseded_linger-Quiet s w.id) h)

  close_superseded-holds :
      (id : SocketId) (w : WatchedMember) (now : ℕ) (h : History)
      → let (w', h') = close_superseded s w now h in
        (contains (closed h) id ≡ true → contains (closed h') id ≡ true)
        × (holds id w ≡ true → (holds id w' || contains (closed h') id) ≡ true)
  unfolding close_superseded
  close_superseded-holds id w now h =
      ground
        (arith, due_at-Quiet w now h, closed-close_members w.supersedes (due_at s w now h).1 id)

  -- What closing on time leaves: the member's chain, or its sockets closed.
  close_when_due-holds :
      (id : SocketId) (w : WatchedMember) (v : Verdict) (now : ℕ) (h : History)
      → let (w', h') = close_when_due s w v now h in
        (contains (closed h) id ≡ true → contains (closed h') id ≡ true)
        × (holds id w ≡ true → (holds id w' || contains (closed h') id) ≡ true)
  unfolding close_when_due
  close_when_due-holds id w Verdict.confirmed now h = close_superseded-holds id w now h
  close_when_due-holds id w Verdict.masked now h = close_superseded-holds id w now h
  close_when_due-holds id w _ now h = ground arith

  -- The member is taken out of the list, and its chain goes to its repair.
  replace-Accounts :
      (id : SocketId) (l : Look) (idx : ℕ) (w : WatchedMember) (m : Members) (plan : RepairPlan)
      (h : History)
      → get_elem? m.watched idx ≡ some w
      → plan ≢ wait
      → let (m', h') =
          repair_stranded s l.grp w plan
            (record m { watched = swap_remove m.watched idx })
            l.now
            h in
        Accounts id m h m' h'
  unfolding repair_chain
  replace-Accounts id l idx w m plan h at p a =
      repair_stranded-Accounts s id l.grp w plan (record m { watched = swap_remove m.watched idx })
        l.now h p
        (ground (
          arith,
          any-swap_remove (holds id) m.watched idx w at,
          contains-append w.supersedes (w.id ∷ []) id,
        ))

  follow-Accounts :
      (id : SocketId) (l : Look) (idx : ℕ) (w : WatchedMember) (m : Members) (plan : RepairPlan)
      (h : History)
      → get_elem? m.watched idx ≡ some w
      → let ((idx', m'), h') = follow s l idx w m plan h in Accounts id m h m' h'
  unfolding follow
  follow-Accounts id l idx w m wait h at a =
      set-Accounts id m h h idx w (record w { waiting = true }) at (λ c. c) (λ q. ground arith) a
  follow-Accounts id l idx w m (join_sibling o) h at a =
      replace-Accounts id l idx w m (join_sibling o) h at (λ e. cc) a
  follow-Accounts id l idx w m (hand_to_sibling o) h at a =
      replace-Accounts id l idx w m (hand_to_sibling o) h at (λ e. cc) a
  follow-Accounts id l idx w m plan h at a = replace-Accounts id l idx w m plan h at (λ e. cc) a

  act-Accounts :
      (id : SocketId) (l : Look) (idx : ℕ) (w : WatchedMember) (v : Verdict) (m : Members)
      (step : Step) (h : History)
      → get_elem? m.watched idx ≡ some w
      → let ((idx', m'), h') = act s l idx w v m step h in Accounts id m h m' h'
  unfolding act
  act-Accounts id l idx w v m keep h at a = a
  act-Accounts id l idx w v m (recheck when) h at a =
      set-Accounts id m h h idx w (record w { not_before = when }) at (λ c. c) (λ q. ground arith) a
  act-Accounts id l idx w v m drop h at a =
      remove-Accounts id m h (close_members w.supersedes h).1 idx w at
        (λ c. ground (arith, closed-close_members w.supersedes h id))
        (λ q. ground (arith, closed-close_members w.supersedes h id)) a
  act-Accounts id l idx w v m abandon h at a =
      let h1 = (close_members (w.id ∷ []) h).1 in
      remove-Accounts id m h (close_members w.supersedes h1).1 idx w at
        (λ c.
          ground
            (arith, closed-close_members w.supersedes h1 id, closed-close_members (w.id ∷ []) h id))
        (λ q. ground (arith, closed-close_members w.supersedes h1 id)) a
  act-Accounts id l idx w v m repair h at a =
      let planned = plan_repair s w (is_broken_live v) m.watched m.spawned l.rows l.now h in
      follow-Accounts id l idx w m planned.0 planned.1 at (
        rw
          (Quiet-closed (plan_repair s w (is_broken_live v) m.watched m.spawned l.rows l.now)
            (plan_repair-Quiet s w (is_broken_live v) m.watched m.spawned l.rows l.now) h)
          a)

  look_at-Accounts :
      (id : SocketId) (l : Look) (idx : ℕ) (w : WatchedMember) (m : Members) (h : History)
      → get_elem? m.watched idx ≡ some w
      → let ((idx', m'), h') = look_at s l idx w m h in Accounts id m h m' h'
  unfolding look_at
  look_at-Accounts id l idx w m h at a =
      let verdict = classify_watched w.live (row_of l.rows w.id) w.forced l.backup in
      let (due, h1) = close_when_due s w verdict l.now h in
      let (w', step) = next_step due verdict l.now in
      let m1 : Members = record m { watched = set m.watched idx w' } in
      let (more, moved) = close_when_due-holds id w verdict l.now h in
      let kept = next_step-supersedes due verdict l.now in
      let held = set-Accounts id m h h1 idx w w' at more (λ q. rw kept (moved q)) a in
      let acted =
        act-Accounts id l idx w' verdict m1 step h1 (get_elem?-set_self m.watched idx w' at) held in
      ground (arith, acted)

  sweep-Accounts :
      (id : SocketId) (fuel : ℕ) (l : Look) (idx : ℕ) (m : Members) (h : History)
      → let ((idx', m'), h') = sweep s fuel l idx m h in Accounts id m h m' h'
  unfolding sweep
  sweep-Accounts id zero l idx m h a = a
  sweep-Accounts id (suc fuel) l idx m h a = elim (Option-cases (get_elem? m.watched idx)) [
    | inl past ↦ rw (past, sweep) a
    | inr (w, at) ↦
        rw (at, sweep) (sweep-Accounts id fuel l _ _ _ (look_at-Accounts id l idx w m h at a))
  ]

  read_live-holds :
      (id : SocketId) (ws : List WatchedMember) (h : History)
      → (any (holds id) (read_live s ws h).0 ≡ any (holds id) ws)
        × (closed (read_live s ws h).1 ≡ closed h)
  unfolding read_live
  read_live-holds id [] h = (refl, refl)
  read_live-holds id (w ∷ ws) h =
      let (same, quiet) = read_live-holds id ws (srt_getsockstate w.id ∷ h) in
      (ap (λ b. contains w.supersedes id || b) same, quiet)

  settle-keeps :
      (grp : SocketId) (st : SocketState) (h : History)
      → ((settle s grp st h).0.watched ≡ st.watched) × (closed (settle s grp st h).1 ≡ closed h)
  unfolding settle update_status
  settle-keeps grp st h = (ground arith, ground arith)

  -- A socket that a watched member of the group supersedes before a check is, after it, superseded by a
  -- watched member of the group, or it has been closed.
  pub superseded_is_kept_or_closed :
      (id grp : SocketId) (st : SocketState) (buf : List Row) (now : ℕ) (h : History)
      → any (holds id) st.watched ≡ true
      → let ((st', rows), h') = check_members s grp st buf now h in
        (any (holds id) st'.watched || contains (closed h') id) ≡ true
  unfolding check_members
  superseded_is_kept_or_closed id grp st buf now h a =
      let (ws, h1) = read_live s st.watched h in
      let (rows, h2) = read_group_rows s grp buf h1 in
      let start : Members = record { watched = ws; spawned = [] } in
      let look : Look = record { grp = grp; rows = rows; backup = st.backup; now = now } in
      let live_same = (read_live-holds id st.watched h).0 in
      let before : accounted id start h2 ≡ true = ground (arith, live_same) in
      let after = sweep-Accounts id (length st.watched) look 0 start h2 before in
      let ((idx, m), h3) = sweep s (length st.watched) look 0 start h2 in
      let (same, quiet) = settle-keeps grp (record st { watched = m.watched ++ m.spawned }) h3 in
      rw (same, quiet, any-append (holds id) m.watched m.spawned) after
