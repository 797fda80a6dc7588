-- ===== src/Bridge/Plan/Peer.antt =====
-- The choice of a repair (`plan_repair`) against the rest of the group, as libsrt gave it meanwhile.
use mathlib.Core.List.{Memᴰ}
use bilbycast_libsrt_rs.Shared.{
  ℕ, Bool, true, false, not, ◌&&◌, List, [], ◌++◌, Option, none, some, ◌≡◌, ◌⊎◌, inl, inr, ◌≢◌,
  arith, any-true, ltb,
}
use bilbycast_libsrt_rs.Bridge.Libsrt.{SocketId, Row, Libsrt, History}
use bilbycast_libsrt_rs.Bridge.Status.{is_terminal_status, is_connected}
use bilbycast_libsrt_rs.Bridge.Watch.{WatchedMember}
use bilbycast_libsrt_rs.Bridge.Plan.Moments.{
  Earlier-refl, Earlier-trans, widen, UpAtPeer, BrokenButLive, find_sibling-Grows,
  other_member_at_peer-Grows, other_member_broken_live-Grows, other_member_at_peer-read,
  other_member_broken_live-read,
}
use bilbycast_libsrt_rs.Bridge.Plan.{
  close_then_spawn, wait, repair_plan, weigh_others, contains, repair_chain, other_member_at_peer,
  other_member_broken_live, find_sibling, other_member_handshaking, plan_repair,
}

-- Another watched member in its handshake, before its connect deadline.
abbrev pub in_handshake : List SocketId → ℕ → WatchedMember → Bool
in_handshake exclude now e =
    not (contains exclude e.id)
    && not (is_connected e.live)
    && not (is_terminal_status e.live)
    && ltb now e.resolve_by

not_in_handshake :
    (exclude : List SocketId) (now : ℕ) (e : WatchedMember)
    → in_handshake [] now e ≡ false
    → in_handshake exclude now e ≢ true
not_in_handshake exclude now e h p = ground arith

-- What each plan that closes first or waits says of the three readings.
plan_readings :
    (repairs : ℕ) (sibling : Option (SocketId × Bool)) (broken up live shaking : Bool)
    → let weighed = weigh_others broken up live shaking in
      let plan = repair_plan repairs sibling weighed.0 weighed.1 in
      (plan ≡ close_then_spawn → (up ≡ true) ⊎ ((broken ≡ true) × (live ≡ true)))
      × (plan ≡ wait → (shaking ≡ true) ⊎ ((broken ≡ false) × (live ≡ true)))
unfolding weigh_others repair_plan
plan_readings repairs none broken up live shaking = (ground arith, ground arith)
plan_readings repairs (some (id, true)) broken up live shaking = (ground arith, ground arith)
plan_readings repairs (some (id, false)) broken up live shaking = (ground arith, ground arith)

module _ (s : Libsrt) where
  -- A plan to close first rests on another member that was up at some moment of the planning.
  pub close_first_readings :
      (w : WatchedMember) (broken : Bool) (watched spawned : List WatchedMember) (rows : List Row)
      (now : ℕ) (h : History)
      → let (plan, h') = plan_repair s w broken watched spawned rows now h in
        plan ≡ close_then_spawn
        → ((r : Row) × Memᴰ r rows × UpAtPeer s h h' (repair_chain w) r)
          ⊎ ((broken ≡ true)
              × ((e : WatchedMember) × Memᴰ e (watched ++ spawned)
                  × BrokenButLive s h h' (repair_chain w) rows e))
  unfolding plan_repair
  close_first_readings w broken watched spawned rows now h p =
      let chain = repair_chain w in
      let (sibling, h1) = find_sibling s w watched spawned rows h in
      let (up, h2) = other_member_at_peer s rows chain h1 in
      let (live, h3) = other_member_broken_live s (watched ++ spawned) rows chain h2 in
      let first = find_sibling-Grows s w watched spawned rows h in
      let second = other_member_at_peer-Grows s rows chain h1 in
      let third = other_member_broken_live-Grows s (watched ++ spawned) rows chain h2 in
      elim ((plan_readings w.repairs sibling broken up live _).0 p) [
        | inl there ↦
            let (r, m, (apart, (k, within, reads))) =
              other_member_at_peer-read s rows chain h1 there in
            inl (r, m, (apart, (k, widen h h1 h2 h3 k first third within, reads)))
        | inr (b, there) ↦
            let (e, m, (apart, listed, (k, within, reads))) =
              other_member_broken_live-read s (watched ++ spawned) rows chain h2 there in
            let before = Earlier-trans h h1 h2 first second in
            inr (
              b,
              (
                e,
                m,
                (apart, listed, (k, widen h h2 h3 h3 k before (Earlier-refl h3) within, reads)),
              ),
            )
      ]

  -- What a repair that waits waits for.
  wait_readings :
      (w : WatchedMember) (broken : Bool) (watched spawned : List WatchedMember) (rows : List Row)
      (now : ℕ) (h : History)
      → let (plan, h') = plan_repair s w broken watched spawned rows now h in
        plan ≡ wait
        → (other_member_handshaking (watched ++ spawned) (repair_chain w) now ≡ true)
          ⊎ ((broken ≡ false)
              × ((e : WatchedMember) × Memᴰ e (watched ++ spawned)
                  × BrokenButLive s h h' (repair_chain w) rows e))
  unfolding plan_repair
  wait_readings w broken watched spawned rows now h p =
      let chain = repair_chain w in
      let (sibling, h1) = find_sibling s w watched spawned rows h in
      let (up, h2) = other_member_at_peer s rows chain h1 in
      let (live, h3) = other_member_broken_live s (watched ++ spawned) rows chain h2 in
      let first = find_sibling-Grows s w watched spawned rows h in
      let second = other_member_at_peer-Grows s rows chain h1 in
      elim ((plan_readings w.repairs sibling broken up live _).1 p) [
        | inl shaking ↦ inl shaking
        | inr (b, there) ↦
            let (e, m, (apart, listed, (k, within, reads))) =
              other_member_broken_live-read s (watched ++ spawned) rows chain h2 there in
            let before = Earlier-trans h h1 h2 first second in
            inr (
              b,
              (
                e,
                m,
                (apart, listed, (k, widen h h2 h3 h3 k before (Earlier-refl h3) within, reads)),
              ),
            )
      ]

  none_handshaking :
      (w : WatchedMember) (members : List WatchedMember) (now : ℕ)
      → ((e : WatchedMember) → Memᴰ e members → in_handshake [] now e ≡ false)
      → other_member_handshaking members (repair_chain w) now ≢ true
  unfolding other_member_handshaking
  none_handshaking w members now settled shaking =
      let (e, m, q) = any-true (in_handshake (repair_chain w) now) members shaking in
      not_in_handshake (repair_chain w) now e (settled e m) q

  broken_never_waits :
      (e : WatchedMember) (watched spawned : List WatchedMember) (rows : List Row) (now : ℕ)
      (h : History)
      → ((e' : WatchedMember) → Memᴰ e' (watched ++ spawned) → in_handshake [] now e' ≡ false)
      → (plan_repair s e true watched spawned rows now h).0 ≢ wait
  broken_never_waits e watched spawned rows now h settled p =
      elim (wait_readings e true watched spawned rows now h p) [
        | inl shaking ↦ none_handshaking e (watched ++ spawned) now settled shaking
        | inr (b, live) ↦ cc b
      ]

  -- No deadlock: where no watched member is in its handshake inside its deadline, a member whose repair
  -- waits was not itself found Broken, and it waits for another watched one, listed Broken on a socket
  -- that libsrt gave as connected at some moment of the planning. The repair of that one, planned as of a
  -- Broken member over the same members and rows, does not wait, whatever libsrt answers then.
  pub waiting_ends :
      (w : WatchedMember) (broken : Bool) (watched spawned : List WatchedMember) (rows : List Row)
      (now : ℕ) (h : History)
      → ((e : WatchedMember) → Memᴰ e (watched ++ spawned) → in_handshake [] now e ≡ false)
      → let (plan, h') = plan_repair s w broken watched spawned rows now h in
        plan ≡ wait
        → (broken ≡ false)
          × ((e : WatchedMember) × Memᴰ e (watched ++ spawned)
              × BrokenButLive s h h' (repair_chain w) rows e
              × ((later : History)
                  → (plan_repair s e true watched spawned rows now later).0 ≢ wait))
  waiting_ends w broken watched spawned rows now h settled p =
      elim (wait_readings w broken watched spawned rows now h p) [
        | inl shaking ↦ absurd (none_handshaking w (watched ++ spawned) now settled shaking)
        | inr (b, (e, m, live)) ↦ (
          b,
          (e, m, live, λ later p'. broken_never_waits e watched spawned rows now later settled p'),
        )
      ]
