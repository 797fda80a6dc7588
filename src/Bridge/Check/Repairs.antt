-- ===== src/Bridge/Check/Repairs.antt =====
-- How often one member can be replaced (`check_group`, `repair_stranded`).
use bilbycast_libsrt_rs.Shared.{
  ℕ, zero, suc, Bool, true, false, ◌≤◌, ◌<◌, ◌≡◌, refl, ◌⊎◌, List, [], ◌∷◌, ◌++◌, Option, none,
  some, arith, inl, inr, get_elem?, set, Option-cases, All, All-append, All-set, All-get_elem?,
  All-swap_remove, length,
}
use bilbycast_libsrt_rs.Protocol.Error.{Result, ok, err}
use bilbycast_libsrt_rs.Bridge.Libsrt.{
  SocketId, Row, Libsrt, History, stranded_repair, srt_getsockstate,
}
use bilbycast_libsrt_rs.Bridge.Watch.{
  WatchedMember, Verdict, Step, keep, recheck, drop, abandon, repair, classify_watched, next_step,
  max_stranded_repairs,
}
use bilbycast_libsrt_rs.Bridge.Plan.{
  RepairPlan, close_now, join_sibling, hand_to_sibling, close_then_spawn, spawn_then_close, wait,
  repair_plan, repair_chain, plan_repair,
}
use bilbycast_libsrt_rs.Bridge.Connect.{read_group_rows}
use bilbycast_libsrt_rs.Bridge.Socket.{SocketState, update_status}
use bilbycast_libsrt_rs.Bridge.Check.{
  Members, hand_over, hand_chain, after_connect, respawn, carry_out, repair_stranded,
  close_when_due, close_superseded, row_of, is_broken_live, Look, follow, act, look_at, sweep,
  read_live, settle, check_members,
}

-- The member was replaced at most the limit's number of times.
abbrev pub InLimit : WatchedMember → Type 0
InLimit w = w.repairs ≤ max_stranded_repairs

abbrev MembersInLimit : Members → Type 0
MembersInLimit m = All InLimit m.watched × All InLimit m.spawned

-- A plan that connects is made below the limit only.
abbrev pub Affords : WatchedMember → RepairPlan → Type 0
Affords w plan =
    (plan ≡ close_then_spawn) ⊎ (plan ≡ spawn_then_close) → w.repairs < max_stranded_repairs

repair_plan-affords :
    (repairs : ℕ) (sibling : Option (SocketId × Bool)) (up resolving : Bool)
    → let plan = repair_plan repairs sibling up resolving in
      (plan ≡ close_then_spawn) ⊎ (plan ≡ spawn_then_close) → repairs < max_stranded_repairs
unfolding repair_plan
repair_plan-affords repairs none up resolving e = ground arith
repair_plan-affords repairs (some (id, true)) up resolving e = ground arith
repair_plan-affords repairs (some (id, false)) up resolving e = ground arith

hand_over-InLimit :
    (other : SocketId) (chain : List SocketId) (es es' : List WatchedMember)
    → hand_over other chain es ≡ some es'
    → All InLimit es
    → All InLimit es'
unfolding hand_over
hand_over-InLimit other chain [] es' e a = cc
hand_over-InLimit other chain (w ∷ es) es' e a = elim (Option-cases (hand_over other chain es)) [
  | inl none_there ↦ ground (arith, none_there)
  | inr (rest, there) ↦ ground (arith, there, hand_over-InLimit other chain es rest there a.1)
]

hand_chain-InLimit :
    (other : SocketId) (chain : List SocketId) (m m' : Members)
    → hand_chain other chain m ≡ some m'
    → MembersInLimit m
    → MembersInLimit m'
unfolding hand_chain
hand_chain-InLimit other chain m m' e a = elim (Option-cases (hand_over other chain m.watched)) [
  | inr (ws, there) ↦ ground (arith, there, hand_over-InLimit other chain m.watched ws there a.0)
  | inl no_watched ↦ elim (Option-cases (hand_over other chain m.spawned)) [
    | inr (ws, there) ↦
        ground (arith, no_watched, there, hand_over-InLimit other chain m.spawned ws there a.1)
    | inl no_spawned ↦ ground (arith, no_watched, no_spawned)
  ]
]

pub next_step-repairs :
    (w : WatchedMember) (v : Verdict) (now : ℕ) → (next_step w v now).0.repairs ≡ w.repairs
unfolding next_step
next_step-repairs w Verdict.gone now = refl
next_step-repairs w _ now = refl

module _ (s : Libsrt) where
  after_connect-InLimit :
      (w : WatchedMember) (close_first : Bool) (m : Members) (now : ℕ) (r : Result SocketId)
      (h : History)
      → w.repairs < max_stranded_repairs
      → MembersInLimit m
      → MembersInLimit (after_connect s w close_first m now r h).0
  unfolding after_connect
  after_connect-InLimit w close_first m now (ok new) h below a =
      (a.0, All-append InLimit m.spawned _ a.1 (omega arith, tt))
  after_connect-InLimit w true m now (err e) h below a = a
  after_connect-InLimit w false m now (err e) h below a = a

  carry_out-InLimit :
      (grp : SocketId) (w : WatchedMember) (plan : RepairPlan) (m : Members) (now : ℕ) (h : History)
      → Affords w plan
      → MembersInLimit m
      → MembersInLimit (carry_out s grp w plan m now h).0
  unfolding carry_out respawn
  carry_out-InLimit grp w close_now m now h below a = a
  carry_out-InLimit grp w (join_sibling other) m now h below a = a
  carry_out-InLimit grp w (hand_to_sibling other) m now h below a =
      elim (Option-cases (hand_chain other (repair_chain w) m)) [
        | inl none_there ↦ rw (none_there, carry_out) a
        | inr (m', there) ↦
            rw (there, carry_out) (hand_chain-InLimit other (repair_chain w) m m' there a)
      ]
  carry_out-InLimit grp w close_then_spawn m now h below a =
      after_connect-InLimit w true m now _ _ (below (inl refl)) a
  carry_out-InLimit grp w spawn_then_close m now h below a =
      after_connect-InLimit w false m now _ _ (below (inr refl)) a
  carry_out-InLimit grp w wait m now h below a = a

  repair_stranded-InLimit :
      (grp : SocketId) (w : WatchedMember) (plan : RepairPlan) (m : Members) (now : ℕ) (h : History)
      → Affords w plan
      → MembersInLimit m
      → MembersInLimit (repair_stranded s grp w plan m now h).0
  unfolding repair_stranded
  repair_stranded-InLimit grp w plan m now h below a =
      let uncounted = carry_out-InLimit grp w plan m now h below a in
      let counted = carry_out-InLimit grp w plan m now (stranded_repair ∷ h) below a in
      ground (arith, uncounted, counted)

  pub close_when_due-repairs :
      (w : WatchedMember) (v : Verdict) (now : ℕ) (h : History)
      → (close_when_due s w v now h).0.repairs ≡ w.repairs
  unfolding close_when_due close_superseded
  close_when_due-repairs w Verdict.confirmed now h = ground arith
  close_when_due-repairs w Verdict.masked now h = ground arith
  close_when_due-repairs w _ now h = refl

  follow-InLimit :
      (l : Look) (idx : ℕ) (w : WatchedMember) (m : Members) (plan : RepairPlan) (h : History)
      → InLimit w
      → Affords w plan
      → MembersInLimit m
      → MembersInLimit (follow s l idx w m plan h).0.1
  unfolding follow
  follow-InLimit l idx w m wait h p below a = (All-set InLimit m.watched idx _ a.0 p, a.1)
  follow-InLimit l idx w m (join_sibling o) h p below a =
      repair_stranded-InLimit l.grp w (join_sibling o) _ l.now h below
        (All-swap_remove InLimit m.watched idx a.0, a.1)
  follow-InLimit l idx w m (hand_to_sibling o) h p below a =
      repair_stranded-InLimit l.grp w (hand_to_sibling o) _ l.now h below
        (All-swap_remove InLimit m.watched idx a.0, a.1)
  follow-InLimit l idx w m plan h p below a =
      repair_stranded-InLimit l.grp w plan _ l.now h below
        (All-swap_remove InLimit m.watched idx a.0, a.1)

  pub plan_repair-Affords :
      (w : WatchedMember) (broken : Bool) (watched spawned : List WatchedMember) (rows : List Row)
      (now : ℕ) (h : History)
      → Affords w (plan_repair s w broken watched spawned rows now h).0
  unfolding plan_repair
  plan_repair-Affords w broken watched spawned rows now h e = repair_plan-affords w.repairs _ _ _ e

  act-InLimit :
      (l : Look) (idx : ℕ) (w : WatchedMember) (v : Verdict) (m : Members) (step : Step)
      (h : History)
      → InLimit w
      → MembersInLimit m
      → MembersInLimit (act s l idx w v m step h).0.1
  unfolding act
  act-InLimit l idx w v m keep h p a = a
  act-InLimit l idx w v m (recheck when) h p a = (All-set InLimit m.watched idx _ a.0 p, a.1)
  act-InLimit l idx w v m drop h p a = (All-swap_remove InLimit m.watched idx a.0, a.1)
  act-InLimit l idx w v m abandon h p a = (All-swap_remove InLimit m.watched idx a.0, a.1)
  act-InLimit l idx w v m repair h p a =
      follow-InLimit l idx w m _ _ p
        (plan_repair-Affords w (is_broken_live v) m.watched m.spawned l.rows l.now h) a

  look_at-InLimit :
      (l : Look) (idx : ℕ) (w : WatchedMember) (m : Members) (h : History)
      → InLimit w
      → MembersInLimit m
      → MembersInLimit (look_at s l idx w m h).0.1
  unfolding look_at
  look_at-InLimit l idx w m h p a =
      let verdict = classify_watched w.live (row_of l.rows w.id) w.forced l.backup in
      let (due, h1) = close_when_due s w verdict l.now h in
      let (w', step) = next_step due verdict l.now in
      let kept : InLimit w' =
        omega
          (arith, next_step-repairs due verdict l.now, close_when_due-repairs w verdict l.now h) in
      let acted =
        act-InLimit l idx w' verdict (record m { watched = set m.watched idx w' }) step h1 kept
          (All-set InLimit m.watched idx w' a.0 kept, a.1) in
      ground (arith, acted)

  sweep-InLimit :
      (fuel : ℕ) (l : Look) (idx : ℕ) (m : Members) (h : History)
      → MembersInLimit m
      → MembersInLimit (sweep s fuel l idx m h).0.1
  unfolding sweep
  sweep-InLimit zero l idx m h a = a
  sweep-InLimit (suc fuel) l idx m h a = elim (Option-cases (get_elem? m.watched idx)) [
    | inl past ↦ rw (past, sweep) a
    | inr (w, at) ↦
        rw (at, sweep)
          (sweep-InLimit fuel l _ _ _
            (look_at-InLimit l idx w m h (All-get_elem? InLimit m.watched idx w at a.0) a))
  ]

  read_live-InLimit :
      (ws : List WatchedMember) (h : History) → All InLimit ws → All InLimit (read_live s ws h).0
  unfolding read_live
  read_live-InLimit [] h a = tt
  read_live-InLimit (w ∷ ws) h a = (a.0, read_live-InLimit ws (srt_getsockstate w.id ∷ h) a.1)

  settle-InLimit :
      (grp : SocketId) (st : SocketState) (h : History)
      → All InLimit st.watched
      → All InLimit (settle s grp st h).0.watched
  unfolding settle update_status
  settle-InLimit grp st h a = ground arith

  -- No endless replacement: where every watched member of a group has been replaced at most the limit's
  -- three times, so has every one after a check, whatever libsrt answers.
  pub check_members-repairs_bounded :
      (grp : SocketId) (st : SocketState) (buf : List Row) (now : ℕ) (h : History)
      → All InLimit st.watched
      → let ((st', rows), h') = check_members s grp st buf now h in All InLimit st'.watched
  unfolding check_members
  check_members-repairs_bounded grp st buf now h a =
      let (ws, h1) = read_live s st.watched h in
      let (rows, h2) = read_group_rows s grp buf h1 in
      let start : Members = record { watched = ws; spawned = [] } in
      let look : Look = record { grp = grp; rows = rows; backup = st.backup; now = now } in
      let swept =
        sweep-InLimit (length st.watched) look 0 start h2 (read_live-InLimit st.watched h a, tt) in
      let ((idx, m), h3) = sweep s (length st.watched) look 0 start h2 in
      settle-InLimit grp (record st { watched = m.watched ++ m.spawned }) h3
        (All-append InLimit m.watched m.spawned swept.0 swept.1)
