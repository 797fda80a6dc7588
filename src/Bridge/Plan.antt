-- ===== src/Bridge/Plan.antt =====
-- srt-transport/src/epoll_bridge.rs: how a stranded member is replaced (`repair_plan`), and what of the
-- rest of the group decides it.
pub mod Moments
pub mod Peer
pub mod Alone
use bilbycast_libsrt_rs.Shared.{
  ℕ, Bool, true, false, not, ◌&&◌, ◌||◌, List, [], ◌∷◌, ◌++◌, Option, none, some, ℤ, eqb, any, find,
  ltb, leb, if◌then◌else◌,
}
use bilbycast_libsrt_rs.Protocol.Config.{SocketStatus, MemberStatus}
use bilbycast_libsrt_rs.Bridge.Libsrt.{SocketId, Row, Libsrt, Io, ◌>>=◌, pure, get_state}
use bilbycast_libsrt_rs.Bridge.Status.{
  is_terminal_status, raw_state_to_status, map_member_status, is_connected, is_broken,
}
use bilbycast_libsrt_rs.Bridge.Watch.{WatchedMember, max_stranded_repairs}

pub data RepairPlan : Type 0 where
  close_now : RepairPlan
  join_sibling : SocketId → RepairPlan
  hand_to_sibling : SocketId → RepairPlan
  close_then_spawn : RepairPlan
  spawn_then_close : RepairPlan
  wait : RepairPlan

-- `sibling`: the id, and whether it is still watched.
unfoldable pub repair_plan :
    (repairs : ℕ) → Option (SocketId × Bool) → (others_at_peer others_resolving : Bool) → RepairPlan
repair_plan repairs (some (id, false)) up resolving = join_sibling id
repair_plan repairs (some (id, true)) up resolving =
    if up then join_sibling id else if resolving then wait else hand_to_sibling id
repair_plan repairs none up resolving =
    if leb max_stranded_repairs repairs
    then close_now
    else if up
    then close_then_spawn
    else if resolving
    then wait
    else spawn_then_close

unfoldable pub weigh_others : (broken up broken_live handshaking : Bool) → Bool × Bool
weigh_others broken up broken_live handshaking =
    (up || (broken && broken_live), handshaking || (not broken && broken_live))

unfoldable pub at_peer : MemberStatus → SocketStatus → Bool
at_peer member live = not (is_broken member) && is_connected live

unfoldable pub in_flight : MemberStatus → SocketStatus → Bool
unfolding is_terminal_status
in_flight member live = not (is_broken member) && not (is_terminal_status live)

-- `ids.contains(&id)`
abbrev pub contains : List SocketId → SocketId → Bool
contains ids id = any (λ x. eqb x id) ids

unfoldable pub repair_chain : WatchedMember → List SocketId
repair_chain w = w.supersedes ++ w.id ∷ []

-- The member's id is listed, as Broken.
abbrev pub listed_broken : List Row → SocketId → Bool
listed_broken rows id = any (λ r. eqb r.id id && is_broken (map_member_status r.memberstate)) rows

module _ (s : Libsrt) where
  -- The search stops at the first row that fits, so no later socket is read.
  unfoldable pub member_in_flight : List Row → ℤ → List SocketId → Io (Option SocketId)
  member_in_flight [] token exclude = pure none
  member_in_flight (r ∷ rows) token exclude =
      let rest = member_in_flight rows token exclude in
      if eqb r.token token && not (contains exclude r.id)
      then (do
        raw ← get_state s r.id
        if in_flight (map_member_status r.memberstate) (raw_state_to_status raw)
            then pure (some r.id)
            else rest)
      else rest

  unfoldable pub other_member_at_peer : List Row → List SocketId → Io Bool
  other_member_at_peer [] exclude = pure false
  other_member_at_peer (r ∷ rows) exclude =
      let rest = other_member_at_peer rows exclude in
      if contains exclude r.id then rest else (do
        raw ← get_state s r.id
        if at_peer (map_member_status r.memberstate) (raw_state_to_status raw)
            then pure true
            else rest)

  unfoldable pub other_member_broken_live : List WatchedMember → List Row → List SocketId → Io Bool
  other_member_broken_live [] rows exclude = pure false
  other_member_broken_live (e ∷ members) rows exclude =
      let rest = other_member_broken_live members rows exclude in
      if not (contains exclude e.id) && listed_broken rows e.id
      then (do
        raw ← get_state s e.id
        if is_connected (raw_state_to_status raw) then pure true else rest)
      else rest

unfoldable pub other_member_handshaking : List WatchedMember → List SocketId → ℕ → Bool
other_member_handshaking members exclude now =
    any
      (λ e.
        not (contains exclude e.id)
        && not (is_connected e.live)
        && not (is_terminal_status e.live)
        && ltb now e.resolve_by)
      members

-- The sibling spawned earlier in this check, which no listing shows.
abbrev pub spawned_sibling : List WatchedMember → ℤ → Option (SocketId × Bool)
spawned_sibling spawned token = elim (find (λ e. eqb e.endpoint.token token) spawned) [
  | none ↦ none
  | some e ↦ some (e.id, true)
]

module _ (s : Libsrt) where
  unfoldable pub find_sibling :
      (w : WatchedMember) (watched spawned : List WatchedMember) (rows : List Row)
      → Io (Option (SocketId × Bool))
  find_sibling w watched spawned rows = elim (spawned_sibling spawned w.endpoint.token) [
    | some sibling ↦ pure (some sibling)
    | none ↦ do
      listed ← member_in_flight s rows w.endpoint.token (repair_chain w)
      elim listed [
        | none ↦ pure none
        | some id ↦ pure (some (id, any (λ e. eqb e.id id) (watched ++ spawned)))
      ]
  ]

  unfoldable pub plan_repair :
      (w : WatchedMember) (broken : Bool) (watched spawned : List WatchedMember) (rows : List Row)
      (now : ℕ)
      → Io RepairPlan
  plan_repair w broken watched spawned rows now = do
    sibling ← find_sibling w watched spawned rows
    up ← other_member_at_peer s rows (repair_chain w)
    broken_live ← other_member_broken_live s (watched ++ spawned) rows (repair_chain w)
    let handshaking = other_member_handshaking (watched ++ spawned) (repair_chain w) now
    let (others_at_peer, others_resolving) = weigh_others broken up broken_live handshaking
    pure (repair_plan w.repairs sibling others_at_peer others_resolving)
