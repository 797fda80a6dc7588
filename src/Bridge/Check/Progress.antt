-- ===== src/Bridge/Check/Progress.antt =====
-- The turns of the loop of `check_group`, and its end.
use bilbycast_libsrt_rs.Shared.{
  ℕ, zero, suc, Bool, ◌+◌, ◌≤◌, ◌≡◌, refl, List, [], ◌∷◌, some, arith, true, false, inl, inr,
  get_elem?, set, swap_remove, length, length-set, get_elem?-set_self, length-swap_remove,
  length-le_of_none, Option-cases,
}
use bilbycast_libsrt_rs.Protocol.Error.{Result, ok, err}
use bilbycast_libsrt_rs.Bridge.Libsrt.{SocketId, Libsrt, History, stranded_repair}
use bilbycast_libsrt_rs.Bridge.Watch.{
  WatchedMember, Verdict, Step, keep, recheck, drop, abandon, repair, classify_watched, next_step,
}
use bilbycast_libsrt_rs.Bridge.Plan.{
  RepairPlan, close_now, join_sibling, hand_to_sibling, close_then_spawn, spawn_then_close, wait,
  repair_chain, plan_repair,
}
use bilbycast_libsrt_rs.Bridge.Check.{
  Members, hand_over, hand_chain, after_connect, respawn, carry_out, repair_stranded,
  close_when_due, row_of, is_broken_live, Look, follow, act, look_at, sweep,
}

length-hand_over :
    (other : SocketId) (chain : List SocketId) (es es' : List WatchedMember)
    → hand_over other chain es ≡ some es'
    → length es' ≡ length es
unfolding hand_over
length-hand_over other chain [] es' e = cc
length-hand_over other chain (w ∷ es) es' e = elim (Option-cases (hand_over other chain es)) [
  | inl none_there ↦ ground (arith, none_there)
  | inr (rest, there) ↦ ground (arith, there, length-hand_over other chain es rest there)
]

length-hand_chain :
    (other : SocketId) (chain : List SocketId) (m m' : Members)
    → hand_chain other chain m ≡ some m'
    → length m'.watched ≡ length m.watched
unfolding hand_chain
length-hand_chain other chain m m' e = elim (Option-cases (hand_over other chain m.watched)) [
  | inr (ws, there) ↦ ground (arith, there, length-hand_over other chain m.watched ws there)
  | inl no_watched ↦ elim (Option-cases (hand_over other chain m.spawned)) [
    | inr (ws, there) ↦ ground (arith, no_watched, there)
    | inl no_spawned ↦ ground (arith, no_watched, no_spawned)
  ]
]

module _ (s : Libsrt) where
  after_connect-watched :
      (w : WatchedMember) (close_first : Bool) (m : Members) (now : ℕ) (r : Result SocketId)
      (h : History)
      → (after_connect s w close_first m now r h).0.watched ≡ m.watched
  unfolding after_connect
  after_connect-watched w close_first m now (ok new) h = refl
  after_connect-watched w true m now (err e) h = refl
  after_connect-watched w false m now (err e) h = refl

  -- A repair leaves the number of watched members.
  carry_out-length :
      (grp : SocketId) (w : WatchedMember) (plan : RepairPlan) (m : Members) (now : ℕ) (h : History)
      → length (carry_out s grp w plan m now h).0.watched ≡ length m.watched
  unfolding carry_out respawn
  carry_out-length grp w close_now m now h = refl
  carry_out-length grp w (join_sibling other) m now h = refl
  carry_out-length grp w (hand_to_sibling other) m now h =
      elim (Option-cases (hand_chain other (repair_chain w) m)) [
        | inl none_there ↦ rw (none_there, carry_out) refl
        | inr (m', there) ↦
            rw (there, carry_out) (length-hand_chain other (repair_chain w) m m' there)
      ]
  carry_out-length grp w close_then_spawn m now h = rw (after_connect-watched w true m now _ _) refl
  carry_out-length grp w spawn_then_close m now h =
      rw (after_connect-watched w false m now _ _) refl
  carry_out-length grp w wait m now h = refl

  repair_stranded-length :
      (grp : SocketId) (w : WatchedMember) (plan : RepairPlan) (m : Members) (now : ℕ) (h : History)
      → length (repair_stranded s grp w plan m now h).0.watched ≡ length m.watched
  unfolding repair_stranded
  repair_stranded-length grp w plan m now h = ground (
    arith,
    carry_out-length grp w plan m now h,
    carry_out-length grp w plan m now (stranded_repair ∷ h),
  )

  -- The turn of the loop: the index and the length tell that one member is done.
  abbrev Turn : (idx : ℕ) → Members → ℕ × Members → Type 0
  Turn idx m (idx', m') = length m'.watched + (idx + 1) ≡ length m.watched + idx'

  follow-Turn :
      (l : Look) (idx : ℕ) (w : WatchedMember) (m : Members) (plan : RepairPlan) (h : History)
      {e : WatchedMember}
      → get_elem? m.watched idx ≡ some e
      → Turn idx m (follow s l idx w m plan h).0
  unfolding follow
  follow-Turn l idx w m wait h at =
      omega (arith, length-set m.watched idx (record w { waiting = true }))
  follow-Turn l idx w m (join_sibling o) h at =
      let rest : Members = record m { watched = swap_remove m.watched idx } in
      omega (
        arith,
        length-swap_remove m.watched idx at,
        repair_stranded-length l.grp w (join_sibling o) rest l.now h,
      )
  follow-Turn l idx w m (hand_to_sibling o) h at =
      let rest : Members = record m { watched = swap_remove m.watched idx } in
      omega (
        arith,
        length-swap_remove m.watched idx at,
        repair_stranded-length l.grp w (hand_to_sibling o) rest l.now h,
      )
  follow-Turn l idx w m plan h at =
      let rest : Members = record m { watched = swap_remove m.watched idx } in
      omega (
        arith,
        length-swap_remove m.watched idx at,
        repair_stranded-length l.grp w plan rest l.now h,
      )

  act-Turn :
      (l : Look) (idx : ℕ) (w : WatchedMember) (v : Verdict) (m : Members) (step : Step)
      (h : History) {e : WatchedMember}
      → get_elem? m.watched idx ≡ some e
      → Turn idx m (act s l idx w v m step h).0
  unfolding act
  act-Turn l idx w v m keep h at = omega arith
  act-Turn l idx w v m (recheck when) h at =
      omega (arith, length-set m.watched idx (record w { not_before = when }))
  act-Turn l idx w v m drop h at = omega (arith, length-swap_remove m.watched idx at)
  act-Turn l idx w v m abandon h at = omega (arith, length-swap_remove m.watched idx at)
  act-Turn l idx w v m repair h at =
      let planned = plan_repair s w (is_broken_live v) m.watched m.spawned l.rows l.now h in
      follow-Turn l idx w m planned.0 planned.1 at

  look_at-Turn :
      (l : Look) (idx : ℕ) (w : WatchedMember) (m : Members) (h : History)
      → get_elem? m.watched idx ≡ some w
      → Turn idx m (look_at s l idx w m h).0
  unfolding look_at
  look_at-Turn l idx w m h at =
      let verdict = classify_watched w.live (row_of l.rows w.id) w.forced l.backup in
      let (due, h1) = close_when_due s w verdict l.now h in
      let (w', step) = next_step due verdict l.now in
      let m1 : Members = record m { watched = set m.watched idx w' } in
      let acted = act-Turn l idx w' verdict m1 step h1 (get_elem?-set_self m.watched idx w' at) in
      ground (arith, acted, length-set m.watched idx w')

  -- The loop of a check ends past the last watched member, whatever libsrt answers, where the fuel has
  -- one unit for each member from the index on, as it has at the start of a check.
  pub sweep_reaches_the_end :
      (fuel : ℕ) (l : Look) (idx : ℕ) (m : Members) (h : History)
      → length m.watched ≤ idx + fuel
      → let ((idx', m'), h') = sweep s fuel l idx m h in length m'.watched ≤ idx'
  unfolding sweep
  sweep_reaches_the_end zero l idx m h enough = omega arith
  sweep_reaches_the_end (suc fuel) l idx m h enough =
      elim (Option-cases (get_elem? m.watched idx)) [
        | inl past ↦ rw (past, sweep) (length-le_of_none m.watched idx past)
        | inr (w, at) ↦
            rw (at, sweep)
              (sweep_reaches_the_end fuel l _ _ _ (omega (arith, look_at-Turn l idx w m h at)))
      ]
