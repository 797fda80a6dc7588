-- ===== src/Bridge/Check/Budget.antt =====
-- How many replacements the checks of a group connect, over time.
use bilbycast_libsrt_rs.Shared.{
  ℕ, zero, suc, ◌+◌, ◌-◌, ◌*◌, ◌≤◌, ◌<◌, ◌≡◌, refl, ap, ◌∙◌, Bool, true, false, List, [], ◌∷◌, ◌++◌,
  some, inl, inr, arith, Option-cases, get_elem?, get_elem?-set_self, set, swap_remove, length,
  total, total-append, total-set, total-swap_remove, total_bound,
}
use bilbycast_libsrt_rs.Protocol.Error.{Result, ok, err}
use bilbycast_libsrt_rs.Bridge.Libsrt.{
  SocketId, Row, Libsrt, Io, ◌>>=◌, pure, History, stranded_repair, srt_getsockstate,
}
use bilbycast_libsrt_rs.Bridge.Watch.{
  WatchedMember, Verdict, Step, keep, recheck, drop, abandon, repair, classify_watched, next_step,
  max_stranded_repairs,
}
use bilbycast_libsrt_rs.Bridge.Plan.{
  RepairPlan, close_now, join_sibling, hand_to_sibling, close_then_spawn, spawn_then_close, wait,
  repair_chain, plan_repair,
}
use bilbycast_libsrt_rs.Bridge.Connect.{read_group_rows, superseded_linger, spawned_member}
use bilbycast_libsrt_rs.Bridge.Socket.{SocketState, update_status}
use bilbycast_libsrt_rs.Bridge.Check.{
  Members, close_members, hand_over, hand_chain, after_connect, respawn, carry_out, repair_stranded,
  due_at, close_when_due, close_superseded, row_of, is_broken_live, Look, follow, act, look_at,
  sweep, read_live, settle, check_members,
}
use bilbycast_libsrt_rs.Bridge.Check.Calls.{
  connects, Quiet-connects, connects-close_members, connects-connect_group, plan_repair-Quiet,
  read_group_rows-Quiet, superseded_linger-Quiet, spawned_member-Quiet,
}
use bilbycast_libsrt_rs.Bridge.Check.Repairs.{
  Affords, next_step-repairs, close_when_due-repairs, plan_repair-Affords,
}

-- How often a member may still be replaced.
abbrev pub left : WatchedMember → ℕ
left w = max_stranded_repairs - w.repairs

abbrev budget : Members → ℕ
budget m = total left m.watched + total left m.spawned

-- What was connected was paid for: `spare` is what a member taken out of the lists had left.
abbrev Paid : Members → ℕ → History → Members → History → Type 0
Paid m spare h m' h' = connects h' + budget m' ≤ connects h + budget m + spare

hand_over-total :
    (other : SocketId) (chain : List SocketId) (es es' : List WatchedMember)
    → hand_over other chain es ≡ some es'
    → total left es' ≡ total left es
unfolding hand_over
hand_over-total other chain [] es' e = cc
hand_over-total other chain (w ∷ es) es' e = elim (Option-cases (hand_over other chain es)) [
  | inl none_there ↦ ground (arith, none_there)
  | inr (rest, there) ↦ ground (arith, there, hand_over-total other chain es rest there)
]

hand_chain-budget :
    (other : SocketId) (chain : List SocketId) (m m' : Members)
    → hand_chain other chain m ≡ some m'
    → budget m' ≡ budget m
unfolding hand_chain
hand_chain-budget other chain m m' e = elim (Option-cases (hand_over other chain m.watched)) [
  | inr (ws, there) ↦ ground (arith, there, hand_over-total other chain m.watched ws there)
  | inl no_watched ↦ elim (Option-cases (hand_over other chain m.spawned)) [
    | inr (ws, there) ↦
        ground (arith, no_watched, there, hand_over-total other chain m.spawned ws there)
    | inl no_spawned ↦ ground (arith, no_watched, no_spawned)
  ]
]

module _ (s : Libsrt) where
  -- The replacement has one repair less left than the member had.
  after_connect-Paid :
      (w : WatchedMember) (close_first : Bool) (m : Members) (now : ℕ) (r : Result SocketId)
      (h : History)
      → w.repairs < max_stranded_repairs
      → let (m', h') = after_connect s w close_first m now r h in
        suc (connects h' + budget m') ≤ connects h + budget m + left w
  unfolding after_connect
  after_connect-Paid w close_first m now (ok new) h below =
      let quiet =
        Quiet-connects (spawned_member s new w.endpoint now)
          (spawned_member-Quiet s new w.endpoint now) h in
      rw (quiet, total-append left m.spawned) (omega arith)
  after_connect-Paid w true m now (err e) h below = omega arith
  after_connect-Paid w false m now (err e) h below =
      omega (arith, connects-close_members (repair_chain w) h)

  respawn-Paid :
      (grp : SocketId) (w : WatchedMember) (close_first : Bool) (m : Members) (now : ℕ)
      (h : History)
      → w.repairs < max_stranded_repairs
      → let (m', h') = respawn s grp w close_first m now h in Paid m (left w) h m' h'
  unfolding respawn
  respawn-Paid grp w true m now h below =
      let h1 = (close_members (repair_chain w) h).1 in
      omega (
        arith,
        after_connect-Paid w true m now _ _ below,
        connects-connect_group s grp w.endpoint h1,
        connects-close_members (repair_chain w) h,
      )
  respawn-Paid grp w false m now h below =
      omega (
        arith,
        after_connect-Paid w false m now _ _ below,
        connects-connect_group s grp w.endpoint h,
      )

  close-Paid :
      (w : WatchedMember) (ids : List SocketId) (m : Members) (h : History)
      → Paid m (left w) h m (close_members ids h).1
  close-Paid w ids m h = omega (arith, connects-close_members ids h)

  carry_out-Paid :
      (grp : SocketId) (w : WatchedMember) (plan : RepairPlan) (m : Members) (now : ℕ) (h : History)
      → Affords w plan
      → let (m', h') = carry_out s grp w plan m now h in Paid m (left w) h m' h'
  unfolding carry_out
  carry_out-Paid grp w close_now m now h below = close-Paid w (repair_chain w) m h
  carry_out-Paid grp w (join_sibling other) m now h below = close-Paid w (repair_chain w) m h
  carry_out-Paid grp w (hand_to_sibling other) m now h below =
      elim (Option-cases (hand_chain other (repair_chain w) m)) [
        | inl none_there ↦ rw (none_there, carry_out) (close-Paid w (repair_chain w) m h)
        | inr (m', there) ↦
            rw (there, carry_out)
              (omega (arith, hand_chain-budget other (repair_chain w) m m' there))
      ]
  carry_out-Paid grp w close_then_spawn m now h below =
      respawn-Paid grp w true m now h (below (inl refl))
  carry_out-Paid grp w spawn_then_close m now h below =
      respawn-Paid grp w false m now h (below (inr refl))
  carry_out-Paid grp w wait m now h below = omega arith

  repair_stranded-Paid :
      (grp : SocketId) (w : WatchedMember) (plan : RepairPlan) (m : Members) (now : ℕ) (h : History)
      → Affords w plan
      → let (m', h') = repair_stranded s grp w plan m now h in Paid m (left w) h m' h'
  unfolding repair_stranded
  repair_stranded-Paid grp w plan m now h below =
      let uncounted = carry_out-Paid grp w plan m now h below in
      let counted = carry_out-Paid grp w plan m now (stranded_repair ∷ h) below in
      ground (arith, uncounted, counted)

  -- The member is taken out of the list, and its repair pays with what it had left.
  replace-Paid :
      (l : Look) (idx : ℕ) (w : WatchedMember) (m : Members) (plan : RepairPlan) (h : History)
      → get_elem? m.watched idx ≡ some w
      → Affords w plan
      → let (m', h') =
          repair_stranded s l.grp w plan
            (record m { watched = swap_remove m.watched idx })
            l.now
            h in
        Paid m 0 h m' h'
  replace-Paid l idx w m plan h at below = omega (
    arith,
    repair_stranded-Paid l.grp w plan (record m { watched = swap_remove m.watched idx }) l.now h
        below,
    total-swap_remove left m.watched idx w at,
  )

  follow-Paid :
      (l : Look) (idx : ℕ) (w : WatchedMember) (m : Members) (plan : RepairPlan) (h : History)
      → get_elem? m.watched idx ≡ some w
      → Affords w plan
      → let ((idx', m'), h') = follow s l idx w m plan h in Paid m 0 h m' h'
  unfolding follow
  follow-Paid l idx w m wait h at below =
      omega (arith, total-set left m.watched idx (record w { waiting = true }) w at)
  follow-Paid l idx w m (join_sibling o) h at below =
      replace-Paid l idx w m (join_sibling o) h at below
  follow-Paid l idx w m (hand_to_sibling o) h at below =
      replace-Paid l idx w m (hand_to_sibling o) h at below
  follow-Paid l idx w m plan h at below = replace-Paid l idx w m plan h at below

  act-Paid :
      (l : Look) (idx : ℕ) (w : WatchedMember) (v : Verdict) (m : Members) (step : Step)
      (h : History)
      → get_elem? m.watched idx ≡ some w
      → let ((idx', m'), h') = act s l idx w v m step h in Paid m 0 h m' h'
  unfolding act
  act-Paid l idx w v m keep h at = omega arith
  act-Paid l idx w v m (recheck when) h at =
      omega (arith, total-set left m.watched idx (record w { not_before = when }) w at)
  act-Paid l idx w v m drop h at =
      omega
        (arith, total-swap_remove left m.watched idx w at, connects-close_members w.supersedes h)
  act-Paid l idx w v m abandon h at =
      let h1 = (close_members (w.id ∷ []) h).1 in
      omega (
        arith,
        total-swap_remove left m.watched idx w at,
        connects-close_members w.supersedes h1,
        connects-close_members (w.id ∷ []) h,
      )
  act-Paid l idx w v m repair h at =
      let planned = plan_repair s w (is_broken_live v) m.watched m.spawned l.rows l.now in
      omega (
        arith,
        follow-Paid l idx w m (planned h).0 (planned h).1 at
            (plan_repair-Affords s w (is_broken_live v) m.watched m.spawned l.rows l.now h),
        Quiet-connects planned
            (plan_repair-Quiet s w (is_broken_live v) m.watched m.spawned l.rows l.now) h,
      )

  due_at-connects :
      (w : WatchedMember) (now : ℕ) (h : History) → connects (due_at s w now h).1 ≡ connects h
  unfolding due_at
  due_at-connects w now h =
      ground (arith, Quiet-connects (superseded_linger s w.id) (superseded_linger-Quiet s w.id) h)

  close_when_due-connects :
      (w : WatchedMember) (v : Verdict) (now : ℕ) (h : History)
      → connects (close_when_due s w v now h).1 ≡ connects h
  unfolding close_when_due close_superseded
  close_when_due-connects w Verdict.confirmed now h =
      ground
        (arith, due_at-connects w now h, connects-close_members w.supersedes (due_at s w now h).1)
  close_when_due-connects w Verdict.masked now h =
      ground
        (arith, due_at-connects w now h, connects-close_members w.supersedes (due_at s w now h).1)
  close_when_due-connects w _ now h = refl

  look_at-Paid :
      (l : Look) (idx : ℕ) (w : WatchedMember) (m : Members) (h : History)
      → get_elem? m.watched idx ≡ some w
      → let ((idx', m'), h') = look_at s l idx w m h in Paid m 0 h m' h'
  unfolding look_at
  look_at-Paid l idx w m h at =
      let verdict = classify_watched w.live (row_of l.rows w.id) w.forced l.backup in
      let (due, h1) = close_when_due s w verdict l.now h in
      let (w', step) = next_step due verdict l.now in
      let m1 : Members = record m { watched = set m.watched idx w' } in
      let same : w'.repairs ≡ w.repairs =
        next_step-repairs due verdict l.now ∙ close_when_due-repairs s w verdict l.now h in
      let acted = act-Paid l idx w' verdict m1 step h1 (get_elem?-set_self m.watched idx w' at) in
      let held : budget m1 ≡ budget m = omega (arith, total-set left m.watched idx w' w at, same) in
      let quiet = close_when_due-connects w verdict l.now h in
      let paid : Paid m 0 h (act s l idx w' verdict m1 step h1).0.1
          (act s l idx w' verdict m1 step h1).1 =
        omega (arith, acted, held, quiet) in
      ground (arith, paid)

  sweep-Paid :
      (fuel : ℕ) (l : Look) (idx : ℕ) (m : Members) (h : History)
      → let ((idx', m'), h') = sweep s fuel l idx m h in Paid m 0 h m' h'
  unfolding sweep
  sweep-Paid zero l idx m h = omega arith
  sweep-Paid (suc fuel) l idx m h = elim (Option-cases (get_elem? m.watched idx)) [
    | inl past ↦ rw (past, sweep) (omega arith)
    | inr (w, at) ↦
        let ((idx', m'), h') = look_at s l idx w m h in
        rw (at, sweep) (omega (arith, sweep-Paid fuel l idx' m' h', look_at-Paid l idx w m h at))
  ]

  read_live-left :
      (ws : List WatchedMember) (h : History)
      → (total left (read_live s ws h).0 ≡ total left ws)
        × (connects (read_live s ws h).1 ≡ connects h)
  unfolding read_live
  read_live-left [] h = (refl, refl)
  read_live-left (w ∷ ws) h =
      let (same, quiet) = read_live-left ws (srt_getsockstate w.id ∷ h) in
      (ap (λ n. left w + n) same, quiet)

  settle-keeps :
      (grp : SocketId) (st : SocketState) (h : History)
      → ((settle s grp st h).0.watched ≡ st.watched) × (connects (settle s grp st h).1 ≡ connects h)
  unfolding settle update_status
  settle-keeps grp st h = (ground arith, ground arith)

  -- What a check connects it takes from what the members have left.
  check_members-Paid :
      (grp : SocketId) (st : SocketState) (buf : List Row) (now : ℕ) (h : History)
      → let ((st', rows), h') = check_members s grp st buf now h in
        connects h' + total left st'.watched ≤ connects h + total left st.watched
  unfolding check_members
  check_members-Paid grp st buf now h =
      let (ws, h1) = read_live s st.watched h in
      let (rows, h2) = read_group_rows s grp buf h1 in
      let start : Members = record { watched = ws; spawned = [] } in
      let look : Look = record { grp = grp; rows = rows; backup = st.backup; now = now } in
      let ((idx, m), h3) = sweep s (length st.watched) look 0 start h2 in
      let (same, quiet) = settle-keeps grp (record st { watched = m.watched ++ m.spawned }) h3 in
      let (live_same, live_quiet) = read_live-left st.watched h in
      rw (same, quiet, total-append left m.watched m.spawned)
        (omega (
          arith,
          sweep-Paid (length st.watched) look 0 start h2,
          live_same,
          live_quiet,
          Quiet-connects (read_group_rows s grp buf) (read_group_rows-Quiet s grp buf) h1,
        ))

  -- The checks of a group, one for each time.
  unfoldable pub checks : SocketId → SocketState → List Row → (times : List ℕ) → Io SocketState
  checks grp st buf [] = pure st
  checks grp st buf (now ∷ times) = do
    (st', rows) ← check_members s grp st buf now
    checks grp st' rows times

  checks-Paid :
      (grp : SocketId) (times : List ℕ) (st : SocketState) (buf : List Row) (h : History)
      → let (st', h') = checks grp st buf times h in
        connects h' + total left st'.watched ≤ connects h + total left st.watched
  unfolding checks
  checks-Paid grp [] st buf h = omega arith
  checks-Paid grp (now ∷ times) st buf h =
      let ((st1, rows), h1) = check_members s grp st buf now h in
      omega (arith, checks-Paid grp times st1 rows h1, check_members-Paid grp st buf now h)

  -- No endless replacement: however many checks a group is given, at whatever times, and whatever libsrt
  -- answers, they connect at most three members for each one watched at the first.
  pub checks-replacements_bounded :
      (grp : SocketId) (times : List ℕ) (st : SocketState) (buf : List Row) (h : History)
      → connects (checks grp st buf times h).1 ≤ connects h + 3 * length st.watched
  checks-replacements_bounded grp times st buf h =
      omega
        (arith, checks-Paid grp times st buf h, total_bound left 3 (λ w. omega arith) st.watched)
