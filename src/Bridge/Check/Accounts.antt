-- ===== src/Bridge/Check/Accounts.antt =====
-- When a superseded member is accounted for, and the steps of a repair that keep it so.
use bilbycast_libsrt_rs.Shared.{
  ℕ, ◌≡◌, ◌≢◌, refl, inl, inr, Bool, true, false, ◌||◌, List, [], ◌∷◌, some, arith, any, any-append,
  any-set, any-set_self, any-swap_remove, set, get_elem?, swap_remove, if◌then◌else◌, Option-cases,
}
use bilbycast_libsrt_rs.Protocol.Error.{Result, ok, err}
use bilbycast_libsrt_rs.Bridge.Libsrt.{SocketId, Libsrt, History, stranded_repair}
use bilbycast_libsrt_rs.Bridge.Watch.{WatchedMember, Verdict, next_step}
use bilbycast_libsrt_rs.Bridge.Plan.{
  contains, repair_chain, RepairPlan, close_now, join_sibling, hand_to_sibling, close_then_spawn,
  spawn_then_close, wait,
}
use bilbycast_libsrt_rs.Bridge.Check.{
  Members, close_members, hand_over, hand_chain, after_connect, respawn, carry_out, repair_stranded,
}
use bilbycast_libsrt_rs.Bridge.Connect.{spawned_member}
use bilbycast_libsrt_rs.Bridge.Check.Calls.{
  closed, contains-append, closed-close_members, spawned_member-Quiet, closed-connect_group,
  Quiet-closed,
}

-- The member supersedes the socket.
abbrev pub holds : SocketId → WatchedMember → Bool
holds id w = contains w.supersedes id

-- A watched member or a new replacement supersedes the socket, or it has been closed.
abbrev pub accounted : SocketId → Members → History → Bool
accounted id m h = (any (holds id) m.watched || any (holds id) m.spawned) || contains (closed h) id

-- The rule for every step: an id accounted for before is accounted for after.
abbrev pub Accounts : SocketId → Members → History → Members → History → Type 0
Accounts id m h m' h' = accounted id m h ≡ true → accounted id m' h' ≡ true

-- A write at an index, where what the old member superseded is with the new one or closed.
pub set-Accounts :
    (id : SocketId) (m : Members) (h h' : History) (idx : ℕ) (w w' : WatchedMember)
    → get_elem? m.watched idx ≡ some w
    → (contains (closed h) id ≡ true → contains (closed h') id ≡ true)
    → (holds id w ≡ true → (holds id w' || contains (closed h') id) ≡ true)
    → Accounts id m h (record m { watched = set m.watched idx w' }) h'
set-Accounts id m h h' idx w w' at more moved a =
    ground (
      arith,
      any-set (holds id) m.watched idx w' w at,
      any-set_self (holds id) m.watched idx w' w at,
    )

-- A removal at an index, where what the member superseded is closed.
pub remove-Accounts :
    (id : SocketId) (m : Members) (h h' : History) (idx : ℕ) (w : WatchedMember)
    → get_elem? m.watched idx ≡ some w
    → (contains (closed h) id ≡ true → contains (closed h') id ≡ true)
    → (holds id w ≡ true → contains (closed h') id ≡ true)
    → Accounts id m h (record m { watched = swap_remove m.watched idx }) h'
remove-Accounts id m h h' idx w at more moved a =
    ground (arith, any-swap_remove (holds id) m.watched idx w at)

hand_over-holds :
    (id other : SocketId) (chain : List SocketId) (es es' : List WatchedMember)
    → hand_over other chain es ≡ some es'
    → any (holds id) es' ≡ (any (holds id) es || contains chain id)
unfolding hand_over
hand_over-holds id other chain [] es' e = cc
hand_over-holds id other chain (w ∷ es) es' e = elim (Option-cases (hand_over other chain es)) [
  | inl none_there ↦ ground (arith, none_there, contains-append w.supersedes chain id)
  | inr (rest, there) ↦ ground (
    arith,
    there,
    contains-append w.supersedes chain id,
    hand_over-holds id other chain es rest there,
  )
]

hand_chain-holds :
    (id other : SocketId) (chain : List SocketId) (m m' : Members)
    → hand_chain other chain m ≡ some m'
    → (any (holds id) m'.watched || any (holds id) m'.spawned)
      ≡ ((any (holds id) m.watched || any (holds id) m.spawned) || contains chain id)
unfolding hand_chain
hand_chain-holds id other chain m m' e = elim (Option-cases (hand_over other chain m.watched)) [
  | inr (ws, there) ↦ ground (arith, there, hand_over-holds id other chain m.watched ws there)
  | inl no_watched ↦ elim (Option-cases (hand_over other chain m.spawned)) [
    | inr (ws, there) ↦
        ground (arith, no_watched, there, hand_over-holds id other chain m.spawned ws there)
    | inl no_spawned ↦ ground (arith, no_watched, no_spawned)
  ]
]

-- Closing a chain accounts for it.
close-Accounts :
    (id : SocketId) (chain : List SocketId) (m : Members) (h : History)
    → (contains chain id || accounted id m h) ≡ true
    → accounted id m (close_members chain h).1 ≡ true
close-Accounts id chain m h a = ground (arith, closed-close_members chain h id)

pub next_step-supersedes :
    (w : WatchedMember) (v : Verdict) (now : ℕ) → (next_step w v now).0.supersedes ≡ w.supersedes
unfolding next_step
next_step-supersedes w Verdict.gone now = refl
next_step-supersedes w _ now = refl

module _ (s : Libsrt) where
  after_connect-Accounts :
      (id : SocketId) (w : WatchedMember) (close_first : Bool) (m : Members) (now : ℕ)
      (r : Result SocketId) (h : History)
      → ((if close_first then false else contains (repair_chain w) id) || accounted id m h) ≡ true
      → let (m', h') = after_connect s w close_first m now r h in accounted id m' h' ≡ true
  unfolding after_connect
  after_connect-Accounts id w true m now (ok new) h a =
      rw
        (
          any-append (holds id) m.spawned,
          Quiet-closed (spawned_member s new w.endpoint now)
              (spawned_member-Quiet s new w.endpoint now) h,
        )
        (ground arith)
  after_connect-Accounts id w false m now (ok new) h a =
      rw
        (
          any-append (holds id) m.spawned,
          Quiet-closed (spawned_member s new w.endpoint now)
              (spawned_member-Quiet s new w.endpoint now) h,
        )
        (ground arith)
  after_connect-Accounts id w true m now (err e) h a = a
  after_connect-Accounts id w false m now (err e) h a = close-Accounts id (repair_chain w) m h a

  respawn-Accounts :
      (id grp : SocketId) (w : WatchedMember) (close_first : Bool) (m : Members) (now : ℕ)
      (h : History)
      → (contains (repair_chain w) id || accounted id m h) ≡ true
      → let (m', h') = respawn s grp w close_first m now h in accounted id m' h' ≡ true
  unfolding respawn
  respawn-Accounts id grp w true m now h a =
      let h1 = (close_members (repair_chain w) h).1 in
      after_connect-Accounts id w true m now _ _
        (rw (closed-connect_group s grp w.endpoint h1) (close-Accounts id (repair_chain w) m h a))
  respawn-Accounts id grp w false m now h a =
      after_connect-Accounts id w false m now _ _ (rw (closed-connect_group s grp w.endpoint h) a)

  carry_out-Accounts :
      (id grp : SocketId) (w : WatchedMember) (plan : RepairPlan) (m : Members) (now : ℕ)
      (h : History)
      → plan ≢ wait
      → (contains (repair_chain w) id || accounted id m h) ≡ true
      → let (m', h') = carry_out s grp w plan m now h in accounted id m' h' ≡ true
  unfolding carry_out
  carry_out-Accounts id grp w close_now m now h p a = close-Accounts id (repair_chain w) m h a
  carry_out-Accounts id grp w (join_sibling other) m now h p a =
      close-Accounts id (repair_chain w) m h a
  carry_out-Accounts id grp w (hand_to_sibling other) m now h p a =
      elim (Option-cases (hand_chain other (repair_chain w) m)) [
        | inl none_there ↦ rw (none_there, carry_out) (close-Accounts id (repair_chain w) m h a)
        | inr (m', there) ↦
            rw (there, carry_out)
              (ground (arith, hand_chain-holds id other (repair_chain w) m m' there))
      ]
  carry_out-Accounts id grp w close_then_spawn m now h p a =
      respawn-Accounts id grp w true m now h a
  carry_out-Accounts id grp w spawn_then_close m now h p a =
      respawn-Accounts id grp w false m now h a
  carry_out-Accounts id grp w wait m now h p a = absurd (p refl)

  pub repair_stranded-Accounts :
      (id grp : SocketId) (w : WatchedMember) (plan : RepairPlan) (m : Members) (now : ℕ)
      (h : History)
      → plan ≢ wait
      → (contains (repair_chain w) id || accounted id m h) ≡ true
      → let (m', h') = repair_stranded s grp w plan m now h in accounted id m' h' ≡ true
  unfolding repair_stranded
  repair_stranded-Accounts id grp w plan m now h p a = ground (
    arith,
    carry_out-Accounts id grp w plan m now h p a,
    carry_out-Accounts id grp w plan m now (stranded_repair ∷ h) p a,
  )
