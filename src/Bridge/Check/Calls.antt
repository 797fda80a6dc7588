-- ===== src/Bridge/Check/Calls.antt =====
-- Which sockets the parts of a check close, and what they connect.
use bilbycast_libsrt_rs.Shared.{
  ℕ, suc, sym, ap, map, ◌≡◌, refl, Bool, ◌||◌, List, [], ◌∷◌, ◌++◌, arith, ◌∙◌, ℤ,
}
use bilbycast_libsrt_rs.Bridge.Libsrt.{
  SocketId, Row, Libsrt, Io, History, srt_close, srt_connect_group, srt_getsockstate, Target,
  Outcome, connect_call,
}
use bilbycast_libsrt_rs.Bridge.Endpoint.{GroupEndpoint}
use bilbycast_libsrt_rs.Bridge.Watch.{WatchedMember}
use bilbycast_libsrt_rs.Bridge.Plan.{
  contains, member_in_flight, other_member_at_peer, other_member_broken_live, find_sibling,
  plan_repair, repair_chain,
}
use bilbycast_libsrt_rs.Bridge.Connect.{
  read_group_rows, superseded_linger, connect_timeout_of, spawned_member, refusal, claim_members,
  connect_group, prepare_target,
}
use bilbycast_libsrt_rs.Bridge.Check.{close_members}
use bilbycast_libsrt_rs.Protocol.Error.{Result}

-- The sockets closed so far, the latest first.
abbrev pub closed : History → List SocketId
closed [] = []
closed (srt_close id ∷ h) = id ∷ closed h
closed (_ ∷ h) = closed h

-- The `srt_connect_group` calls made so far.
abbrev pub connects : History → ℕ
connects [] = 0
connects (srt_connect_group id targets ∷ h) = suc (connects h)
connects (c ∷ h) = connects h

-- The calls that close or connect, in their order.
abbrev pub effects : History → History
effects [] = []
effects (srt_close id ∷ h) = srt_close id ∷ effects h
effects (srt_connect_group id targets ∷ h) = srt_connect_group id targets ∷ effects h
effects (c ∷ h) = effects h

pub closed-effects : (h : History) → closed (effects h) ≡ closed h
closed-effects [] = refl
closed-effects (srt_close id ∷ h) = ap (λ l. id ∷ l) (closed-effects h)
closed-effects (c ∷ h) = closed-effects h

connects-effects : (h : History) → connects (effects h) ≡ connects h
connects-effects [] = refl
connects-effects (srt_connect_group id targets ∷ h) = ap suc (connects-effects h)
connects-effects (c ∷ h) = connects-effects h

-- A computation that closes and connects nothing.
abbrev pub Quiet {ℓ} : {A : Type ℓ} → Io A → Type 0
Quiet m = (h : History) → effects (m h).1 ≡ effects h

pub Quiet-closed {ℓ} : {A : Type ℓ} (m : Io A) → Quiet m → (h : History) → closed (m h).1 ≡ closed h
Quiet-closed m quiet h = sym (closed-effects (m h).1) ∙ ap closed (quiet h) ∙ closed-effects h

pub Quiet-connects {ℓ} :
    {A : Type ℓ} (m : Io A) → Quiet m → (h : History) → connects (m h).1 ≡ connects h
Quiet-connects m quiet h =
    sym (connects-effects (m h).1) ∙ ap connects (quiet h) ∙ connects-effects h

pub contains-append :
    (xs ys : List SocketId) (id : SocketId)
    → contains (xs ++ ys) id ≡ (contains xs id || contains ys id)
contains-append [] ys id = refl
contains-append (x ∷ xs) ys id = ground (arith, contains-append xs ys id)

-- `close_members` closes the given sockets.
pub closed-close_members :
    (ids : List SocketId) (h : History) (id : SocketId)
    → contains (closed (close_members ids h).1) id ≡ (contains ids id || contains (closed h) id)
unfolding close_members
closed-close_members [] h id = refl
closed-close_members (x ∷ ids) h id = ground (arith, closed-close_members ids (srt_close x ∷ h) id)

pub connects-close_members :
    (ids : List SocketId) (h : History) → connects (close_members ids h).1 ≡ connects h
unfolding close_members
connects-close_members [] h = refl
connects-close_members (x ∷ ids) h = connects-close_members ids (srt_close x ∷ h)

module _ (s : Libsrt) where
  pub member_in_flight-Quiet :
      (rows : List Row) (token : ℤ) (exclude : List SocketId)
      → Quiet (member_in_flight s rows token exclude)
  unfolding member_in_flight
  member_in_flight-Quiet [] token exclude h = refl
  member_in_flight-Quiet (r ∷ rows) token exclude h = ground (
    arith,
    member_in_flight-Quiet rows token exclude h,
    member_in_flight-Quiet rows token exclude (srt_getsockstate r.id ∷ h),
  )

  other_member_at_peer-Quiet :
      (rows : List Row) (exclude : List SocketId) → Quiet (other_member_at_peer s rows exclude)
  unfolding other_member_at_peer
  other_member_at_peer-Quiet [] exclude h = refl
  other_member_at_peer-Quiet (r ∷ rows) exclude h = ground (
    arith,
    other_member_at_peer-Quiet rows exclude h,
    other_member_at_peer-Quiet rows exclude (srt_getsockstate r.id ∷ h),
  )

  other_member_broken_live-Quiet :
      (members : List WatchedMember) (rows : List Row) (exclude : List SocketId)
      → Quiet (other_member_broken_live s members rows exclude)
  unfolding other_member_broken_live
  other_member_broken_live-Quiet [] rows exclude h = refl
  other_member_broken_live-Quiet (e ∷ members) rows exclude h = ground (
    arith,
    other_member_broken_live-Quiet members rows exclude h,
    other_member_broken_live-Quiet members rows exclude (srt_getsockstate e.id ∷ h),
  )

  find_sibling-Quiet :
      (w : WatchedMember) (watched spawned : List WatchedMember) (rows : List Row)
      → Quiet (find_sibling s w watched spawned rows)
  unfolding find_sibling
  find_sibling-Quiet w watched spawned rows h =
      ground (arith, member_in_flight-Quiet rows w.endpoint.token (repair_chain w) h)

  pub plan_repair-Quiet :
      (w : WatchedMember) (broken : Bool) (watched spawned : List WatchedMember) (rows : List Row)
      (now : ℕ)
      → Quiet (plan_repair s w broken watched spawned rows now)
  unfolding plan_repair
  plan_repair-Quiet w broken watched spawned rows now h =
      let h1 = (find_sibling s w watched spawned rows h).1 in
      let h2 = (other_member_at_peer s rows (repair_chain w) h1).1 in
      other_member_broken_live-Quiet (watched ++ spawned) rows (repair_chain w) h2
      ∙ other_member_at_peer-Quiet rows (repair_chain w) h1
      ∙ find_sibling-Quiet w watched spawned rows h

  pub read_group_rows-Quiet : (grp : SocketId) (buf : List Row) → Quiet (read_group_rows s grp buf)
  unfolding read_group_rows
  read_group_rows-Quiet grp buf h = ground arith

  pub superseded_linger-Quiet : (member : SocketId) → Quiet (superseded_linger s member)
  unfolding superseded_linger
  superseded_linger-Quiet member h = refl

  pub spawned_member-Quiet :
      (id : SocketId) (endpoint : GroupEndpoint) (now : ℕ)
      → Quiet (spawned_member s id endpoint now)
  unfolding spawned_member connect_timeout_of
  spawned_member-Quiet id endpoint now h = refl

  refusal-Quiet : (ret : ℤ) (outcomes : List Outcome) → Quiet (refusal s ret outcomes)
  unfolding refusal
  refusal-Quiet ret outcomes h = ground arith

  claim_members-Quiet :
      (grp : SocketId) (before : List Row) (ts : List (Target × Outcome))
      (members : List (Result SocketId))
      → Quiet (claim_members s grp before ts members)
  unfolding claim_members
  claim_members-Quiet grp before ts members h = ground (arith, read_group_rows-Quiet grp before h)

  -- A connect of some endpoint makes one call, and closes nothing.
  pub connect_group-effects :
      (grp : SocketId) (e : GroupEndpoint) (es : List GroupEndpoint) (h : History)
      → effects (connect_group s grp (e ∷ es) h).1
        ≡ srt_connect_group grp (map prepare_target (e ∷ es)) ∷ effects h
  unfolding connect_group connect_call
  connect_group-effects grp e es h =
      claim_members-Quiet grp _ _ _ _
      ∙ refusal-Quiet _ _ _
      ∙ ap (λ l. srt_connect_group grp (map prepare_target (e ∷ es)) ∷ l)
          (read_group_rows-Quiet grp [] h)

  pub closed-connect_group :
      (grp : SocketId) (e : GroupEndpoint) (h : History)
      → closed (connect_group s grp (e ∷ []) h).1 ≡ closed h
  closed-connect_group grp e h =
      sym (closed-effects (connect_group s grp (e ∷ []) h).1)
      ∙ ap closed (connect_group-effects grp e [] h)
      ∙ closed-effects h

  pub connects-connect_group :
      (grp : SocketId) (e : GroupEndpoint) (h : History)
      → connects (connect_group s grp (e ∷ []) h).1 ≡ suc (connects h)
  connects-connect_group grp e h =
      sym (connects-effects (connect_group s grp (e ∷ []) h).1)
      ∙ ap connects (connect_group-effects grp e [] h)
      ∙ ap suc (connects-effects h)
