-- ===== src/Bridge/Watch/Grace.antt =====
-- Looks at one watched member over time (`next_step` after `classify_watched`): when it is replaced.
use bilbycast_libsrt_rs.Shared.{
  ℕ, ◌+◌, ◌-◌, ◌≤◌, ap, Bool, false, List, [], ◌∷◌, ◌++◌, none, some, ◌≡◌, refl, ◌⊎◌, inl, inr, ◌≢◌,
  All, arith, Option-cases,
}
use bilbycast_libsrt_rs.Protocol.Config.{SocketStatus, MemberStatus}
use bilbycast_libsrt_rs.Bridge.Watch.{
  WatchedMember, Verdict, repair, abandon, classify_watched, next_step, stranded_member_grace,
  or_value,
}

-- A look: what it found, and when.
abbrev pub Look : Type 0
Look = Verdict × ℕ

-- The member after the looks, the latest first.
unfoldable pub after : WatchedMember → List Look → WatchedMember
after w [] = w
after w ((verdict, now) ∷ looks) = (next_step (after w looks) verdict now).0

abbrev pub IsStranded : Verdict → Type 0
IsStranded v = (v ≡ Verdict.stranded) ⊎ (v ≡ Verdict.broken_live)

-- The latest looks, back to one at `since`, all read the member stranded.
abbrev pub StrandedSince : ℕ → List Look → Type 0
StrandedSince since [] = ⊥
StrandedSince since ((v, now) ∷ looks) = IsStranded v × ((now ≡ since) ⊎ StrandedSince since looks)

-- A member that is gone is not looked at again.
abbrev pub NotGone : Look → Type 0
NotGone l = l.0 ≢ Verdict.gone

after-resolve_by :
    (w : WatchedMember) (looks : List Look) → (after w looks).resolve_by ≡ w.resolve_by
unfolding after next_step
after-resolve_by w [] = refl
after-resolve_by w ((v, now) ∷ looks) = ground (arith, after-resolve_by w looks)

since-StrandedSince :
    (w : WatchedMember) (looks : List Look) (since : ℕ)
    → w.stranded_since ≡ none
    → All NotGone looks
    → (after w looks).stranded_since ≡ some since
    → StrandedSince since looks
unfolding after next_step
since-StrandedSince w [] since fresh seen e = cc
since-StrandedSince w ((v, now) ∷ looks) since fresh seen e =
    ground (arith, since-StrandedSince w looks since fresh seen.1)

-- Why one look leads to a replacement.
repair_reason :
    (w : WatchedMember) (v : Verdict) (now : ℕ)
    → (next_step w v now).1 ≡ repair
    → ((v ≡ Verdict.handshaking) × (w.resolve_by ≤ now))
      ⊎ (IsStranded v × (stranded_member_grace ≤ now - or_value w.stranded_since now))
unfolding next_step
repair_reason w Verdict.gone now e = ground arith
repair_reason w _ now e = ground arith

-- A look asks for the repair of a fresh member either past its connect deadline, or after an unbroken run of looks that
-- all read it stranded, from one at least the grace ago up to this one.
pub repair_after_grace :
    (w : WatchedMember) (looks : List Look) (v : Verdict) (now : ℕ)
    → w.stranded_since ≡ none
    → All NotGone looks
    → (next_step (after w looks) v now).1 ≡ repair
    → ((v ≡ Verdict.handshaking) × (w.resolve_by ≤ now))
      ⊎ ((since : ℕ) × StrandedSince since ((v, now) ∷ looks)
          × (since + stranded_member_grace ≤ now))
repair_after_grace w looks v now fresh seen e = elim (repair_reason (after w looks) v now e) [
  | inl (shaking, past) ↦ inl (shaking, omega (arith, after-resolve_by w looks))
  | inr (reads, long) ↦ elim (Option-cases (after w looks).stranded_since) [
    | inl none_yet ↦ absurd (omega (arith, ap (λ o. or_value o now) none_yet))
    | inr (since, at) ↦ inr (
      since,
      (reads, inr (since-StrandedSince w looks since fresh seen at)),
      omega (arith, ap (λ o. or_value o now) at),
    )
  ]
]

since-after :
    (w : WatchedMember) (looks : List Look) (first : Verdict) (since : ℕ)
    → w.stranded_since ≡ none
    → IsStranded first
    → All (λ l. IsStranded l.0) looks
    → (after w (looks ++ (first, since) ∷ [])).stranded_since ≡ some since
unfolding after next_step
since-after w [] first since fresh f all = ground arith
since-after w ((v, now) ∷ looks) first since fresh f all =
    ground (arith, since-after w looks first since fresh f all.1)

-- The repair of a stranded member falls due: for a fresh member that reads stranded at every look, from one
-- at `since` on, each look that comes the grace later or after it asks for a repair.
pub stranded_is_repaired :
    (w : WatchedMember) (looks : List Look) (first v : Verdict) (since now : ℕ)
    → w.stranded_since ≡ none
    → IsStranded first
    → All (λ l. IsStranded l.0) looks
    → IsStranded v
    → since + stranded_member_grace ≤ now
    → (next_step (after w (looks ++ (first, since) ∷ [])) v now).1 ≡ repair
unfolding next_step
stranded_is_repaired w looks first v since now fresh f all reads long =
    ground (arith, since-after w looks first since fresh f all)

-- A member that libsrt lists Idle or Running on a connected socket, and that the test hook has not
-- marked, is never replaced or given up: it is left alone, or looked at again.
pub up_member_is_left_alone :
    (w : WatchedMember) (live : SocketStatus) (member : MemberStatus) (backup : Bool) (now : ℕ)
    → (member ≡ MemberStatus.idle) ⊎ (member ≡ MemberStatus.running)
    → let verdict = classify_watched live (some (member, SocketStatus.connected)) false backup in
      let step = (next_step w verdict now).1 in (step ≢ repair) × (step ≢ abandon)
unfolding next_step classify_watched
up_member_is_left_alone w live member backup now up = (ground arith, ground arith)
