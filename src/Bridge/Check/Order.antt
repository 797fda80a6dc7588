-- ===== src/Bridge/Check/Order.antt =====
-- The order in which a repair closes a member and connects its replacement.
use mathlib.Core.List.{Memᴰ}
use bilbycast_libsrt_rs.Shared.{
  ℕ, ◌≡◌, ◌≢◌, refl, sym, ap, ◌∙◌, ◌⊎◌, inl, inr, Bool, true, false, ◌||◌, List, [], ◌∷◌, ◌++◌,
  arith, Option-cases, swap_remove,
}
use bilbycast_libsrt_rs.Protocol.Error.{Result, ok, err}
use bilbycast_libsrt_rs.Bridge.Libsrt.{
  SocketId, Row, Libsrt, History, srt_close, srt_connect_group, stranded_repair,
}
use bilbycast_libsrt_rs.Bridge.Watch.{WatchedMember, Verdict, repair}
use bilbycast_libsrt_rs.Bridge.Plan.{
  RepairPlan, close_now, join_sibling, hand_to_sibling, close_then_spawn, spawn_then_close, wait,
  contains, repair_chain, plan_repair,
}
use bilbycast_libsrt_rs.Bridge.Plan.Moments.{UpAtPeer, BrokenButLive}
use bilbycast_libsrt_rs.Bridge.Plan.Peer.{close_first_readings}
use bilbycast_libsrt_rs.Bridge.Connect.{connect_group, spawned_member}
use bilbycast_libsrt_rs.Bridge.Check.{
  Members, close_members, hand_chain, after_connect, respawn, carry_out, repair_stranded, Look,
  is_broken_live, follow, act,
}
use bilbycast_libsrt_rs.Bridge.Check.Calls.{
  closed, effects, closed-effects, Quiet-closed, plan_repair-Quiet, spawned_member-Quiet,
  connect_group-effects,
}

-- Some `srt_connect_group` was called when the socket had been closed already.
abbrev pub connected_after_close : SocketId → History → Bool
connected_after_close id [] = false
connected_after_close id (srt_connect_group grp targets ∷ h) =
    contains (closed h) id || connected_after_close id h
connected_after_close id (c ∷ h) = connected_after_close id h

-- A socket that is open was open at each connect.
open-connected :
    (id : SocketId) (h : History)
    → contains (closed h) id ≡ false
    → connected_after_close id h ≡ false
open-connected id [] o = refl
open-connected id (srt_close k ∷ h) o = open-connected id h (ground (arith, o))
open-connected id (srt_connect_group grp targets ∷ h) o = ground (arith, o, open-connected id h o)
open-connected id (c ∷ h) o = open-connected id h o

pub connected_after_close-effects :
    (id : SocketId) (h : History)
    → connected_after_close id (effects h) ≡ connected_after_close id h
connected_after_close-effects id [] = refl
connected_after_close-effects id (srt_close k ∷ h) = connected_after_close-effects id h
connected_after_close-effects id (srt_connect_group grp targets ∷ h) =
    ap (λ l. contains l id || connected_after_close id (effects h)) (closed-effects h)
    ∙ ap (λ b. contains (closed h) id || b) (connected_after_close-effects id h)
connected_after_close-effects id (c ∷ h) = connected_after_close-effects id h

same_order :
    (id : SocketId) (h h' : History)
    → effects h' ≡ effects h
    → connected_after_close id h' ≡ connected_after_close id h
same_order id h h' e =
    sym (connected_after_close-effects id h')
    ∙ ap (connected_after_close id) e
    ∙ connected_after_close-effects id h

close_members-order :
    (id : SocketId) (ids : List SocketId) (h : History)
    → connected_after_close id (close_members ids h).1 ≡ connected_after_close id h
unfolding close_members
close_members-order id [] h = refl
close_members-order id (x ∷ ids) h = close_members-order id ids (srt_close x ∷ h)

module _ (s : Libsrt) where
  connect_group-order :
      (id grp : SocketId) (w : WatchedMember) (h : History)
      → contains (closed h) id ≡ false
      → connected_after_close id (connect_group s grp (w.endpoint ∷ []) h).1 ≡ false
  connect_group-order id grp w h o =
      sym (connected_after_close-effects id (connect_group s grp (w.endpoint ∷ []) h).1)
      ∙ ap (connected_after_close id) (connect_group-effects s grp w.endpoint [] h)
      ∙ rw (closed-effects h, o, connected_after_close-effects id h) (open-connected id h o)

  pub after_connect-order :
      (id : SocketId) (w : WatchedMember) (close_first : Bool) (m : Members) (now : ℕ)
      (r : Result SocketId) (h : History)
      → connected_after_close id (after_connect s w close_first m now r h).1
        ≡ connected_after_close id h
  unfolding after_connect
  after_connect-order id w close_first m now (ok new) h =
      same_order id h (spawned_member s new w.endpoint now h).1
        (spawned_member-Quiet s new w.endpoint now h)
  after_connect-order id w true m now (err e) h = refl
  after_connect-order id w false m now (err e) h = close_members-order id (repair_chain w) h

  -- But for the plan to close first, nothing is connected once the member is closed.
  carry_out-order :
      (id grp : SocketId) (w : WatchedMember) (plan : RepairPlan) (m : Members) (now : ℕ)
      (h : History)
      → contains (closed h) id ≡ false
      → plan ≢ close_then_spawn
      → connected_after_close id (carry_out s grp w plan m now h).1 ≡ false
  unfolding carry_out respawn
  carry_out-order id grp w close_now m now h o p =
      close_members-order id (repair_chain w) h ∙ open-connected id h o
  carry_out-order id grp w (join_sibling other) m now h o p =
      close_members-order id (repair_chain w) h ∙ open-connected id h o
  carry_out-order id grp w (hand_to_sibling other) m now h o p =
      elim (Option-cases (hand_chain other (repair_chain w) m)) [
        | inl none_there ↦
            rw (none_there, carry_out)
              (close_members-order id (repair_chain w) h ∙ open-connected id h o)
        | inr (m', there) ↦ rw (there, carry_out) (open-connected id h o)
      ]
  carry_out-order id grp w close_then_spawn m now h o p = absurd (p refl)
  carry_out-order id grp w spawn_then_close m now h o p =
      after_connect-order id w false m now _ _ ∙ connect_group-order id grp w h o
  carry_out-order id grp w wait m now h o p = open-connected id h o

  repair_stranded-order :
      (id grp : SocketId) (w : WatchedMember) (plan : RepairPlan) (m : Members) (now : ℕ)
      (h : History)
      → contains (closed h) id ≡ false
      → plan ≢ close_then_spawn
      → connected_after_close id (repair_stranded s grp w plan m now h).1 ≡ false
  unfolding repair_stranded
  repair_stranded-order id grp w plan m now h o p =
      let uncounted = carry_out-order id grp w plan m now h o p in
      let counted = carry_out-order id grp w plan m now (stranded_repair ∷ h) o p in
      ground (arith, uncounted, counted)

  follow-order :
      (id : SocketId) (l : Look) (idx : ℕ) (w : WatchedMember) (m : Members) (plan : RepairPlan)
      (h : History)
      → contains (closed h) id ≡ false
      → connected_after_close id (follow s l idx w m plan h).1 ≡ true
      → plan ≡ close_then_spawn
  unfolding follow
  follow-order id l idx w m close_then_spawn h o late = refl
  follow-order id l idx w m wait h o late = cc (late, open-connected id h o)
  follow-order id l idx w m close_now h o late = cc (
    late,
    repair_stranded-order id l.grp w close_now (record m { watched = swap_remove m.watched idx })
        l.now h o (λ e. cc),
  )
  follow-order id l idx w m (join_sibling k) h o late = cc (
    late,
    repair_stranded-order id l.grp w (join_sibling k)
        (record m { watched = swap_remove m.watched idx }) l.now h o (λ e. cc),
  )
  follow-order id l idx w m (hand_to_sibling k) h o late = cc (
    late,
    repair_stranded-order id l.grp w (hand_to_sibling k)
        (record m { watched = swap_remove m.watched idx }) l.now h o (λ e. cc),
  )
  follow-order id l idx w m spawn_then_close h o late = cc (
    late,
    repair_stranded-order id l.grp w spawn_then_close
        (record m { watched = swap_remove m.watched idx }) l.now h o (λ e. cc),
  )

  -- The peer is not left without a member: where the repair of a member that was open makes a connect
  -- once the member is closed, another member was there meanwhile: a listed one that is not Broken, on a
  -- socket that libsrt gave as connected, or, where the repaired one was found Broken, another watched
  -- member listed Broken on a socket that libsrt gave as connected. Whatever libsrt answers, a repair
  -- that finds no such member connects before it closes, or connects nothing.
  pub close_first_keeps_a_member :
      (l : Look) (idx : ℕ) (w : WatchedMember) (v : Verdict) (m : Members) (h : History)
      → contains (closed h) w.id ≡ false
      → let h' = (act s l idx w v m repair h).1 in
        let planned = (plan_repair s w (is_broken_live v) m.watched m.spawned l.rows l.now h).1 in
        connected_after_close w.id h' ≡ true
        → ((r : Row) × Memᴰ r l.rows × UpAtPeer s h planned (repair_chain w) r)
          ⊎ ((is_broken_live v ≡ true)
              × ((e : WatchedMember) × Memᴰ e (m.watched ++ m.spawned)
                  × BrokenButLive s h planned (repair_chain w) l.rows e))
  unfolding act
  close_first_keeps_a_member l idx w v m h o late =
      let plan = plan_repair s w (is_broken_live v) m.watched m.spawned l.rows l.now in
      let quiet = plan_repair-Quiet s w (is_broken_live v) m.watched m.spawned l.rows l.now in
      let still : contains (closed (plan h).1) w.id ≡ false =
        ap (λ ids. contains ids w.id) (Quiet-closed plan quiet h) ∙ o in
      close_first_readings s w (is_broken_live v) m.watched m.spawned l.rows l.now h
        (follow-order w.id l idx w m (plan h).0 (plan h).1 still late)
