-- ===== src/Examples/Groups.antt =====
-- The properties of a group's members at concrete inputs.
use mathlib.Core.List.{Memᴰ}
use bilbycast_libsrt_rs.Shared.{
  ℕ, ◌+◌, ◌*◌, ◌≤◌, ◌≡◌, refl, ◌≢◌, ◌⊎◌, inl, inr, true, false, ◌||◌, [], ◌∷◌, ◌++◌, some, pos, any,
  any-false, length, arith,
}
use bilbycast_libsrt_rs.Protocol.Config.{SocketStatus, MemberStatus}
use bilbycast_libsrt_rs.Bridge.Libsrt.{Row, History, connect_call}
use bilbycast_libsrt_rs.Bridge.Status.{map_member_status, raw_state_to_status, is_terminal_status}
use bilbycast_libsrt_rs.Bridge.Watch.{
  WatchedMember, Verdict, repair, abandon, next_step, new_watched, classify_watched,
  stranded_member_grace,
}
use bilbycast_libsrt_rs.Bridge.Watch.Grace.{
  after, StrandedSince, repair_after_grace, stranded_is_repaired, up_member_is_left_alone,
}
use bilbycast_libsrt_rs.Bridge.Plan.{
  wait, contains, repair_chain, repair_plan, weigh_others, at_peer, in_flight, member_in_flight,
  other_member_at_peer, other_member_broken_live, find_sibling, other_member_handshaking,
  plan_repair,
}
use bilbycast_libsrt_rs.Bridge.Plan.Alone.{IsAlone}
use bilbycast_libsrt_rs.Bridge.Plan.Moments.{UpAtPeer, BrokenButLive}
use bilbycast_libsrt_rs.Bridge.Plan.Peer.{in_handshake, waiting_ends}
use bilbycast_libsrt_rs.Bridge.Connect.{
  single, read_group_rows, prepare_target, member_of, connect_timeout_of, spawned_member,
  claim_members, refusal, connect_group,
}
use bilbycast_libsrt_rs.Bridge.Check.{
  Members, Look, sweep, check_members, check_stranded_members, act, follow, repair_stranded,
  carry_out, respawn, close_members, after_connect,
}
use bilbycast_libsrt_rs.Bridge.Check.Calls.{closed, connects}
use bilbycast_libsrt_rs.Bridge.Check.Budget.{checks, checks-replacements_bounded}
use bilbycast_libsrt_rs.Bridge.Check.Order.{close_first_keeps_a_member}
use bilbycast_libsrt_rs.Bridge.Check.Overlap.{overlap-IsAlone}
use bilbycast_libsrt_rs.Bridge.Check.Repaired.{KeptOrWaits, repaired_is_kept_or_closed}
use bilbycast_libsrt_rs.Bridge.Check.Accounts.{holds}
use bilbycast_libsrt_rs.Bridge.Check.Ownership.{superseded_is_kept_or_closed}
use bilbycast_libsrt_rs.Bridge.Check.Progress.{sweep_reaches_the_end}
use bilbycast_libsrt_rs.Bridge.Check.Others.{check_stranded_members-others}
use bilbycast_libsrt_rs.Bridge.Socket.{SocketState, get}
use bilbycast_libsrt_rs.Examples.{stranded_row, up_row, broken_row, library, member, group_state}

abbrev stranded : WatchedMember
stranded = member 2 5 SocketStatus.connected (pos 8 ∷ [])

abbrev shaking : WatchedMember
shaking = member 1 9 SocketStatus.connecting []

abbrev broken : WatchedMember
broken = member 4 7 SocketStatus.connected []

abbrev watching : SocketState
watching = group_state (stranded ∷ shaking ∷ [])

-- One check, with both members due.
abbrev look : Look
look = record { grp = pos 20; rows = stranded_row ∷ up_row ∷ []; backup = false; now = 5000000000 }

abbrev both : Members
both = record { watched = stranded ∷ shaking ∷ []; spawned = [] }

superseded_is_kept_or_closed_example :
    let ((st', rows), h') = check_members library (pos 20) watching [] 5000000000 [] in
    (any (holds (pos 8)) st'.watched || contains (closed h') (pos 8)) ≡ true
superseded_is_kept_or_closed_example =
    superseded_is_kept_or_closed library (pos 8) (pos 20) watching [] 5000000000 [] refl

sweep_reaches_the_end_example :
    let ((idx, m), h) = sweep library 2 look 0 both [] in length m.watched ≤ idx
sweep_reaches_the_end_example = sweep_reaches_the_end library 2 look 0 both [] (omega arith)

checks-replacements_bounded_example :
    connects (checks library (pos 20) watching [] (5000000000 ∷ 6000000000 ∷ []) []).1
    ≤ connects [] + 3 * length watching.watched
checks-replacements_bounded_example =
    checks-replacements_bounded library (pos 20) (5000000000 ∷ 6000000000 ∷ []) watching [] []

-- Member 3 is up, so the stranded one is closed before it is connected again.
close_first_keeps_a_member_example :
    let planned = (plan_repair library stranded false both.watched [] look.rows look.now []).1 in
    ((r : Row) × Memᴰ r look.rows × UpAtPeer library [] planned (repair_chain stranded) r)
    ⊎ ((false ≡ true)
        × ((e : WatchedMember) × Memᴰ e (both.watched ++ [])
            × BrokenButLive library [] planned (repair_chain stranded) look.rows e))
unfolding act follow repair_stranded carry_out respawn connect_group plan_repair find_sibling
    member_in_flight other_member_at_peer other_member_broken_live repair_plan weigh_others at_peer
    in_flight repair_chain other_member_handshaking map_member_status raw_state_to_status
    is_terminal_status close_members after_connect spawned_member single read_group_rows
    connect_call prepare_target member_of connect_timeout_of new_watched claim_members refusal
close_first_keeps_a_member_example =
    close_first_keeps_a_member library look 0 stranded Verdict.stranded both [] refl refl

-- A group of one member.
abbrev alone : Members
alone = record { watched = stranded ∷ []; spawned = [] }

abbrev look_alone : Look
look_alone = record { grp = pos 20; rows = stranded_row ∷ []; backup = false; now = 5000000000 }

-- With nobody else at the peer the replacement of the stranded member is connected while it is open.
overlap-IsAlone_example :
    let planned =
      (plan_repair library stranded false alone.watched [] look_alone.rows look_alone.now []).1 in
    IsAlone library [] planned
      (repair_chain stranded)
      look_alone.rows
      (alone.watched ++ [])
      look_alone.now
unfolding act follow repair_stranded carry_out respawn connect_group plan_repair find_sibling
    member_in_flight other_member_at_peer other_member_broken_live repair_plan weigh_others at_peer
    in_flight repair_chain other_member_handshaking map_member_status raw_state_to_status
    is_terminal_status close_members after_connect spawned_member single read_group_rows
    connect_call prepare_target member_of connect_timeout_of new_watched claim_members refusal
overlap-IsAlone_example =
    overlap-IsAlone library look_alone 0 stranded Verdict.stranded alone [] (omega arith) refl

-- The socket 8 that the stranded member supersedes is not lost by its repair.
repaired_is_kept_or_closed_example :
    let ((idx, m), h) = act library look 0 stranded Verdict.stranded both repair [] in
    KeptOrWaits (pos 8) 0 stranded both m h
unfolding repair_chain
repaired_is_kept_or_closed_example =
    repaired_is_kept_or_closed library (pos 8) look 0 stranded Verdict.stranded both [] refl

-- The broken member waits for nobody: the stranded one waits for it.
waiting_ends_example :
    let rows = stranded_row ∷ broken_row ∷ [] in
    let h' = (plan_repair library stranded false (broken ∷ []) [] rows 50 []).1 in
    (false ≡ false)
    × ((e : WatchedMember) × Memᴰ e (broken ∷ [])
        × BrokenButLive library [] h' (repair_chain stranded) rows e
        × ((later : History)
            → (plan_repair library e true (broken ∷ []) [] rows 50 later).0 ≢ wait))
unfolding plan_repair find_sibling member_in_flight other_member_at_peer other_member_broken_live
    repair_plan weigh_others at_peer in_flight repair_chain other_member_handshaking
    map_member_status raw_state_to_status is_terminal_status
waiting_ends_example =
    waiting_ends library stranded false (broken ∷ []) [] (stranded_row ∷ broken_row ∷ []) 50 []
      (λ e m. any-false (in_handshake [] 50) (broken ∷ []) refl m) refl

stranded_is_repaired_example :
    (next_step
      (after stranded ([] ++ (Verdict.stranded, 100) ∷ []))
      Verdict.stranded
      (100 + stranded_member_grace)).1
    ≡ repair
stranded_is_repaired_example =
    stranded_is_repaired stranded [] Verdict.stranded Verdict.stranded 100
      (100 + stranded_member_grace) refl (inl refl) tt (inl refl) (omega arith)

repair_after_grace_example :
    ((Verdict.stranded ≡ Verdict.handshaking) × (stranded.resolve_by ≤ 100 + stranded_member_grace))
    ⊎ ((since : ℕ) × StrandedSince since
          ((Verdict.stranded, 100 + stranded_member_grace) ∷ (Verdict.stranded, 100) ∷ [])
        × (since + stranded_member_grace ≤ 100 + stranded_member_grace))
unfolding next_step after
repair_after_grace_example =
    repair_after_grace stranded ((Verdict.stranded, 100) ∷ []) Verdict.stranded
      (100 + stranded_member_grace) refl (λ e. cc, tt) refl

up_member_is_left_alone_example :
    let verdict =
      classify_watched SocketStatus.connected
        (some (MemberStatus.running, SocketStatus.connected))
        false
        false in
    let step = (next_step stranded verdict 50).1 in (step ≢ repair) × (step ≢ abandon)
up_member_is_left_alone_example =
    up_member_is_left_alone stranded SocketStatus.connected MemberStatus.running false 50 (inr refl)

check_stranded_members-others_example :
    get
      (pos 30)
      (check_stranded_members library
        ((pos 30, group_state []) ∷ (pos 20, watching) ∷ [])
        []
        []).0.0
    ≡ some (group_state [])
unfolding get is_terminal_status
check_stranded_members-others_example =
    check_stranded_members-others library ((pos 30, group_state []) ∷ (pos 20, watching) ∷ []) [] []
      (pos 30) (group_state []) (refl, (refl, tt)) refl refl
