-- ===== src/Bridge/Connect.antt =====
-- srt-transport/src/epoll_bridge.rs: connecting members into a group (`connect_group`), and the two
-- timeouts read back from a member's socket.
pub mod Claims
pub mod Answers
pub mod Checked
use bilbycast_libsrt_rs.Shared.{
  ℕ, ◌+◌, min, max, Bool, true, false, not, ◌&&◌, ◌||◌, List, [], ◌∷◌, map, Option, none, some, ℤ,
  pos, eqb, is_nonneg, is_positive, pos_part, any, find, take, length, ltb, if◌then◌else◌,
  from_millis,
}
use bilbycast_libsrt_rs.Protocol.Error.{SrtError, Result, ok, err, from_code}
use bilbycast_libsrt_rs.Bridge.Endpoint.{GroupEndpoint, max_group_member_weight}
use bilbycast_libsrt_rs.Bridge.SockOpt.{SockOpt, srto_conntimeo, srto_rcvlatency, srto_peerlatency}
use bilbycast_libsrt_rs.Bridge.Libsrt.{
  SocketId, Row, Target, Outcome, Libsrt, GroupData, Io, ◌>>=◌, pure, group_data, connect_call,
  get_flag, last_error_code,
}
use bilbycast_libsrt_rs.Bridge.Plan.{contains}
use bilbycast_libsrt_rs.Bridge.Watch.{
  WatchedMember, new_watched, handshake_ttl_slack, default_connect_timeout, superseded_linger_slack,
}

unfoldable pub prepare_target : GroupEndpoint → Target
prepare_target ep = record {
  src = ep.local_addr;
  peer = ep.addr;
  weight = min ep.weight max_group_member_weight;
  token = ep.token;
}

pub record GroupConnect : Type 0 where
  pub refused : Option SrtError
  pub members : List (Result SocketId)

-- The match of `single` on the first member and the refusal.
abbrev pub first_member : List (Result SocketId) → Option SrtError → Result SocketId
first_member (ok member ∷ ms) refused = ok member
first_member (err e ∷ ms) (some r) = err r
first_member (err e ∷ ms) none = err e
first_member [] (some r) = err r
first_member [] none = err SrtError.connection_lost

unfoldable pub single : GroupConnect → Result SocketId
single g = first_member g.members g.refused

-- No id and no error code: found BROKEN, perhaps kept.
abbrev pub maybe_kept : Outcome → Bool
maybe_kept t = not (is_nonneg t.id) && eqb t.errorcode (pos 0)

unfoldable pub member_of : Outcome → Result SocketId
member_of t =
    if is_nonneg t.id && eqb t.errorcode (pos 0)
    then ok t.id
    else if not (eqb t.errorcode (pos 0))
    then err (from_code t.errorcode)
    else err SrtError.connection_lost

-- The ids of the members that were spawned.
abbrev pub spawned_ids : List (Result SocketId) → List SocketId
spawned_ids [] = []
spawned_ids (ok id ∷ ms) = id ∷ spawned_ids ms
spawned_ids (err e ∷ ms) = spawned_ids ms

-- The first new row with the token that no member has claimed.
unfoldable pub kept_row : List Row → ℤ → (before claimed : List SocketId) → Option SocketId
kept_row rows token before claimed =
    elim (find (λ r. eqb r.token token && not (contains before r.id) && not (contains claimed r.id))
      rows) [ none ↦ none | some r ↦ some r.id ]

-- The loop that claims each new listed member once; `claimed` grows as it goes.
unfoldable pub claim_kept :
    List Row
    → (before claimed : List SocketId) → List (Target × Outcome)
    → List (Result SocketId)
    → List (Result SocketId)
claim_kept rows before claimed [] members = members
claim_kept rows before claimed (t ∷ ts) [] = []
claim_kept rows before claimed ((t, o) ∷ ts) (m ∷ ms) =
    if maybe_kept o
    then elim (kept_row rows t.token before claimed) [
      | none ↦ m ∷ claim_kept rows before claimed ts ms
      | some kept ↦ ok kept ∷ claim_kept rows before (kept ∷ claimed) ts ms
    ]
    else m ∷ claim_kept rows before claimed ts ms

abbrev pub zip {ℓ κ} : {A : Type ℓ} {B : Type κ} → List A → List B → List (A × B)
zip [] ys = []
zip (x ∷ xs) [] = []
zip (x ∷ xs) (y ∷ ys) = (x, y) ∷ zip xs ys

-- The rows that one `srt_group_data` call left in a buffer of `room` slots.
abbrev pub listing : GroupData → List Row
listing d = if is_nonneg d.ret then take d.count d.rows else []

module _ (s : Libsrt) where
  -- A first call, and a second with a larger buffer where libsrt asks for one.
  unfoldable pub read_group_rows : SocketId → List Row → Io (List Row)
  read_group_rows grp buf = do
    let room = max 8 (length buf)
    d ← group_data s grp room
    if not (is_nonneg d.ret) && ltb room d.count
        then (do d' ← group_data s grp d.count; pure (listing d'))
        else pure (listing d)

  unfoldable pub connect_timeout_of : SocketId → Io ℕ
  connect_timeout_of member = do
    (ret, ms) ← get_flag s member srto_conntimeo
    pure (
        if not (is_nonneg ret) || not (is_positive ms)
        then default_connect_timeout
        else from_millis (pos_part ms))

  -- One direction's latency in milliseconds, 0 where it cannot be read.
  abbrev pub latency : SocketId → SockOpt → Io ℕ
  latency member opt = do
    (ret, ms) ← get_flag s member opt
    pure (if is_nonneg ret then pos_part ms else 0)

  unfoldable pub superseded_linger : SocketId → Io ℕ
  superseded_linger member = do
    rcv ← latency member srto_rcvlatency
    peer ← latency member srto_peerlatency
    pure (from_millis (max rcv peer) + superseded_linger_slack)

  -- `WatchedMember::spawned`
  unfoldable pub spawned_member : SocketId → GroupEndpoint → ℕ → Io WatchedMember
  spawned_member id endpoint now = do
    timeout ← connect_timeout_of id
    pure (new_watched id endpoint (now + timeout + handshake_ttl_slack) now)

  -- libsrt's error is read only where the call failed.
  unfoldable pub refusal : ℤ → List Outcome → Io (Option SrtError)
  refusal ret outcomes = if is_nonneg ret then pure none else (do
    call_error ← last_error_code s
    elim (find (λ t. not (eqb t.errorcode (pos 0))) outcomes) [
      | none ↦ pure (some (from_code call_error))
      | some t ↦ pure (some (from_code t.errorcode))
    ])

  -- The claim of members that libsrt reported failed and kept, after a second listing.
  unfoldable pub claim_members :
      SocketId
      → (before : List Row) → List (Target × Outcome)
      → List (Result SocketId)
      → Io (List (Result SocketId))
  claim_members grp before ts members =
      if any (λ t. maybe_kept t.1) ts
      then (do
        rows ← read_group_rows grp before
        pure (claim_kept rows (map (λ r. r.id) before) (spawned_ids members) ts members))
      else pure members

  unfoldable pub connect_group : SocketId → List GroupEndpoint → Io GroupConnect
  connect_group grp [] = pure (record { refused = some SrtError.invalid_param; members = [] })
  connect_group grp (e ∷ es) = do
    before ← read_group_rows grp []
    let targets = map prepare_target (e ∷ es)
    (ret, outcomes) ← connect_call s grp targets
    refused ← refusal ret outcomes
    members ← claim_members grp before (zip targets outcomes) (map member_of outcomes)
    pure (record { refused = refused; members = members })
