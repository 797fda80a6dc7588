-- ===== src/Bridge/Check/Repaired.antt =====
-- What a repair leaves of the sockets of the member it is made for.
use bilbycast_libsrt_rs.Shared.{ℕ, ◌≡◌, ◌≢◌, refl, ◌⊎◌, inl, inr, true, set, swap_remove, arith}
use bilbycast_libsrt_rs.Bridge.Libsrt.{SocketId, Libsrt, History}
use bilbycast_libsrt_rs.Bridge.Watch.{WatchedMember, Verdict, repair}
use bilbycast_libsrt_rs.Bridge.Plan.{
  RepairPlan, join_sibling, hand_to_sibling, wait, contains, repair_chain, plan_repair,
}
use bilbycast_libsrt_rs.Bridge.Check.{Members, repair_stranded, Look, is_broken_live, follow, act}
use bilbycast_libsrt_rs.Bridge.Check.Accounts.{accounted, repair_stranded-Accounts}

-- The socket is accounted for after the step, or the member waits where it was.
abbrev pub KeptOrWaits : SocketId → (idx : ℕ) → WatchedMember → Members → Members → History → Type 0
KeptOrWaits id idx w m m' h' =
    (accounted id m' h' ≡ true)
    ⊎ ((m'.watched ≡ set m.watched idx (record w { waiting = true })) × (m'.spawned ≡ m.spawned))

module _ (s : Libsrt) where
  replaced :
      (id : SocketId) (l : Look) (idx : ℕ) (w : WatchedMember) (m : Members) (plan : RepairPlan)
      (h : History)
      → contains (repair_chain w) id ≡ true
      → plan ≢ wait
      → let (m', h') =
          repair_stranded s l.grp w plan
            (record m { watched = swap_remove m.watched idx })
            l.now
            h in
        KeptOrWaits id idx w m m' h'
  replaced id l idx w m plan h own p = inl (
      repair_stranded-Accounts s id l.grp w plan (record m { watched = swap_remove m.watched idx })
        l.now h p (ground (arith, own)))

  follow-Kept :
      (id : SocketId) (l : Look) (idx : ℕ) (w : WatchedMember) (m : Members) (plan : RepairPlan)
      (h : History)
      → contains (repair_chain w) id ≡ true
      → let ((idx', m'), h') = follow s l idx w m plan h in KeptOrWaits id idx w m m' h'
  unfolding follow
  follow-Kept id l idx w m wait h own = inr (refl, refl)
  follow-Kept id l idx w m (join_sibling o) h own =
      replaced id l idx w m (join_sibling o) h own (λ e. cc)
  follow-Kept id l idx w m (hand_to_sibling o) h own =
      replaced id l idx w m (hand_to_sibling o) h own (λ e. cc)
  follow-Kept id l idx w m plan h own = replaced id l idx w m plan h own (λ e. cc)

  -- The repair of a member leaks no socket, whatever libsrt answers: the member's own socket, and each one
  -- it supersedes, is afterwards superseded by a watched member or a new replacement, or has been closed;
  -- or else the repair waits: the member is put back at its index, marked as waiting, and no other member
  -- changes.
  pub repaired_is_kept_or_closed :
      (id : SocketId) (l : Look) (idx : ℕ) (w : WatchedMember) (v : Verdict) (m : Members)
      (h : History)
      → contains (repair_chain w) id ≡ true
      → let ((idx', m'), h') = act s l idx w v m repair h in KeptOrWaits id idx w m m' h'
  unfolding act
  repaired_is_kept_or_closed id l idx w v m h own =
      let planned = plan_repair s w (is_broken_live v) m.watched m.spawned l.rows l.now h in
      follow-Kept id l idx w m planned.0 planned.1 own
