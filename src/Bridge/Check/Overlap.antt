-- ===== src/Bridge/Check/Overlap.antt =====
-- When a repair connects a replacement while the member is still open.
use bilbycast_libsrt_rs.Shared.{
  ℕ, ◌≡◌, ◌<◌, refl, sym, ap, ◌∙◌, ◌⊎◌, inl, inr, true, false, [], ◌∷◌, ◌++◌, arith, eqb_refl,
  Option-cases, swap_remove,
}
use bilbycast_libsrt_rs.Bridge.Libsrt.{SocketId, Libsrt, History, stranded_repair}
use bilbycast_libsrt_rs.Bridge.Watch.{WatchedMember, Verdict, repair}
use bilbycast_libsrt_rs.Bridge.Plan.{
  RepairPlan, close_now, join_sibling, hand_to_sibling, close_then_spawn, spawn_then_close, wait,
  contains, repair_chain, plan_repair,
}
use bilbycast_libsrt_rs.Bridge.Plan.Alone.{IsAlone, spawn_first-IsAlone}
use bilbycast_libsrt_rs.Bridge.Connect.{connect_group}
use bilbycast_libsrt_rs.Bridge.Check.{
  Members, close_members, hand_chain, respawn, carry_out, repair_stranded, Look, is_broken_live,
  follow, act,
}
use bilbycast_libsrt_rs.Bridge.Check.Calls.{
  closed, connects, closed-effects, contains-append, closed-close_members, connects-close_members,
  Quiet-connects, plan_repair-Quiet, connect_group-effects,
}
use bilbycast_libsrt_rs.Bridge.Check.Order.{
  connected_after_close, connected_after_close-effects, after_connect-order,
}

-- The repair connected nothing, or connected when the member was closed, or has the plan to connect first.
abbrev Kinds : WatchedMember → RepairPlan → History → History → Type 0
Kinds w plan h h' =
    (connects h' ≡ connects h) ⊎ (connected_after_close w.id h' ≡ true) ⊎ (plan ≡ spawn_then_close)

own_chain : (w : WatchedMember) → contains (repair_chain w) w.id ≡ true
unfolding repair_chain
own_chain w = ground (arith, contains-append w.supersedes (w.id ∷ []) w.id, eqb_refl w.id)

module _ (s : Libsrt) where
  late_connect :
      (grp : SocketId) (w : WatchedMember) (h : History)
      → let h1 = (close_members (repair_chain w) h).1 in
        connected_after_close w.id (connect_group s grp (w.endpoint ∷ []) h1).1 ≡ true
  late_connect grp w h =
      let h1 = (close_members (repair_chain w) h).1 in
      let shut : contains (closed h1) w.id ≡ true =
        ground (arith, closed-close_members (repair_chain w) h w.id, own_chain w) in
      sym (connected_after_close-effects w.id (connect_group s grp (w.endpoint ∷ []) h1).1)
      ∙ ap (connected_after_close w.id) (connect_group-effects s grp w.endpoint [] h1)
      ∙ rw (closed-effects h1, shut) refl

  carry_out-Kinds :
      (grp : SocketId) (w : WatchedMember) (plan : RepairPlan) (m : Members) (now : ℕ) (h : History)
      → Kinds w plan h (carry_out s grp w plan m now h).1
  unfolding carry_out respawn
  carry_out-Kinds grp w close_now m now h = inl (connects-close_members (repair_chain w) h)
  carry_out-Kinds grp w (join_sibling other) m now h =
      inl (connects-close_members (repair_chain w) h)
  carry_out-Kinds grp w (hand_to_sibling other) m now h =
      elim (Option-cases (hand_chain other (repair_chain w) m)) [
        | inl none_there ↦
            rw (none_there, carry_out) (inl (connects-close_members (repair_chain w) h))
        | inr (m', there) ↦ rw (there, carry_out) (inl refl)
      ]
  carry_out-Kinds grp w close_then_spawn m now h =
      inr (inl (after_connect-order s w.id w true m now _ _ ∙ late_connect grp w h))
  carry_out-Kinds grp w spawn_then_close m now h = inr (inr refl)
  carry_out-Kinds grp w wait m now h = inl refl

  repair_stranded-Kinds :
      (grp : SocketId) (w : WatchedMember) (plan : RepairPlan) (m : Members) (now : ℕ) (h : History)
      → Kinds w plan h (repair_stranded s grp w plan m now h).1
  unfolding repair_stranded
  repair_stranded-Kinds grp w plan m now h =
      let uncounted = carry_out-Kinds grp w plan m now h in
      let counted = carry_out-Kinds grp w plan m now (stranded_repair ∷ h) in
      ground (arith, uncounted, counted)

  follow-Kinds :
      (l : Look) (idx : ℕ) (w : WatchedMember) (m : Members) (plan : RepairPlan) (h : History)
      → Kinds w plan h (follow s l idx w m plan h).1
  unfolding follow
  follow-Kinds l idx w m wait h = inl refl
  follow-Kinds l idx w m plan h =
      repair_stranded-Kinds l.grp w plan (record m { watched = swap_remove m.watched idx }) l.now h

  -- A replacement joins its member only where the peer has nobody else, whatever libsrt answers: where the
  -- repair of a member makes a connect, and makes none once the member is closed, each row of the listing
  -- outside the member's chain (itself and the sockets it supersedes) was found not up at the peer at some
  -- moment of the planning; and each member outside the chain, watched or spawned in this check, is not in
  -- its handshake inside its deadline and, if listed Broken, was found not connected at such a moment.
  pub overlap-IsAlone :
      (l : Look) (idx : ℕ) (w : WatchedMember) (v : Verdict) (m : Members) (h : History)
      → let h' = (act s l idx w v m repair h).1 in
        let planned = (plan_repair s w (is_broken_live v) m.watched m.spawned l.rows l.now h).1 in
        connects h < connects h'
        → connected_after_close w.id h' ≡ false
        → IsAlone s h planned (repair_chain w) l.rows (m.watched ++ m.spawned) l.now
  unfolding act
  overlap-IsAlone l idx w v m h made open_ =
      let plan = plan_repair s w (is_broken_live v) m.watched m.spawned l.rows l.now in
      let quiet =
        Quiet-connects plan
          (plan_repair-Quiet s w (is_broken_live v) m.watched m.spawned l.rows l.now) h in
      elim (follow-Kinds l idx w m (plan h).0 (plan h).1) [
        | inl none_made ↦ absurd (omega (arith, made, none_made, quiet))
        | inr (inl late) ↦ cc (late, open_)
        | inr (inr first) ↦
            spawn_first-IsAlone s w (is_broken_live v) m.watched m.spawned l.rows l.now h first
      ]
