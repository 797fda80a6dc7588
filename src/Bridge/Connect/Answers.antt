-- ===== src/Bridge/Connect/Answers.antt =====
-- Which result of a group connect goes to which endpoint (`connect_group`).
use mathlib.Core.List.{Memᴰ}
use mathlib.Core.Option.{some-injective}
use bilbycast_libsrt_rs.Shared.{
  ℕ, suc, ◌≡◌, refl, sym, ap, ◌∙◌, ◌⊎◌, inl, inr, Bool, true, false, not, ◌&&◌, List, [], ◌∷◌, map,
  some, ℤ, eqb, any, find, length, Bool-cases, Option-cases, arith,
}
use bilbycast_libsrt_rs.Protocol.Error.{SrtError, Result, ok}
use bilbycast_libsrt_rs.Bridge.Endpoint.{GroupEndpoint}
use bilbycast_libsrt_rs.Bridge.Libsrt.{
  SocketId, Row, Target, Outcome, Libsrt, History, outcomes_from, connect_call, srt_connect_group,
}
use bilbycast_libsrt_rs.Bridge.Plan.{contains}
use bilbycast_libsrt_rs.Bridge.Connect.{
  prepare_target, maybe_kept, member_of, spawned_ids, kept_row, claim_kept, zip, read_group_rows,
  refusal, claim_members, connect_group,
}

-- The endpoint's own result: what libsrt wrote into its target; or, where libsrt reported neither an id nor
-- an error, a socket that the group did not have before, listed with the endpoint's token.
abbrev pub IsAnswer :
    (relisted : List Row) (before : List SocketId)
    → GroupEndpoint
    → Outcome
    → Result SocketId
    → Type 0
IsAnswer relisted before ep outcome result =
    (result ≡ member_of outcome)
    ⊎ ((maybe_kept outcome ≡ true)
        × ((r : Row) × Memᴰ r relisted
            × (eqb r.token ep.token ≡ true)
            × (contains before r.id ≡ false)
            × (result ≡ ok r.id)))

-- One result for each endpoint, in the order of the endpoints.
abbrev pub AnswersEach :
    (relisted : List Row) (before : List SocketId)
    → List GroupEndpoint
    → List Outcome
    → List (Result SocketId)
    → Type 0
AnswersEach relisted before [] [] [] = Unit
AnswersEach relisted before (ep ∷ eps) (o ∷ os) (result ∷ results) =
    IsAnswer relisted before ep o result × AnswersEach relisted before eps os results
AnswersEach relisted before _ _ _ = ⊥

find-found :
    {A : Type 0} (p : A → Bool) (xs : List A) (x : A)
    → find p xs ≡ some x
    → Memᴰ x xs × (p x ≡ true)
find-found p [] x e = cc
find-found p (y ∷ ys) x e = elim (Bool-cases (p y)) [
  | inl fits ↦
      let here : x ≡ y = some-injective x y (sym e ∙ ground (arith, fits)) in
      (Memᴰ.head here, rw here fits)
  | inr other ↦ let (m, fits) = find-found p ys x (ground (arith, other, e)) in (Memᴰ.tail m, fits)
]

kept_row-found :
    (rows : List Row) (token : ℤ) (before claimed : List SocketId) (kept : SocketId)
    → kept_row rows token before claimed ≡ some kept
    → (r : Row) × Memᴰ r rows
      × (eqb r.token token ≡ true)
      × (contains before r.id ≡ false)
      × (kept ≡ r.id)
unfolding kept_row
kept_row-found rows token before claimed kept e =
    let fits : Row → Bool =
      λ r. eqb r.token token && not (contains before r.id) && not (contains claimed r.id) in
    elim (Option-cases (find fits rows)) [
      | inl missed ↦ absurd (ground (arith, missed, e))
      | inr (r, found) ↦
          let (m, fine) = find-found fits rows r found in
          (r, m, ground (arith, fine), ground (arith, fine), ground (arith, found, e))
    ]

-- The results before any is claimed.
unclaimed-AnswersEach :
    (relisted : List Row) (before : List SocketId) (eps : List GroupEndpoint) (os : List Outcome)
    → length os ≡ length eps
    → AnswersEach relisted before eps os (map member_of os)
unclaimed-AnswersEach relisted before [] [] same = tt
unclaimed-AnswersEach relisted before [] (o ∷ os) same = absurd (omega (arith, same))
unclaimed-AnswersEach relisted before (ep ∷ eps) [] same = absurd (omega (arith, same))
unclaimed-AnswersEach relisted before (ep ∷ eps) (o ∷ os) same =
    (inl refl, unclaimed-AnswersEach relisted before eps os (omega (arith, same)))

claim_kept-AnswersEach :
    (rows : List Row) (before claimed : List SocketId) (eps : List GroupEndpoint)
    (os : List Outcome)
    → length os ≡ length eps
    → AnswersEach rows before eps os
        (claim_kept rows before claimed (zip (map prepare_target eps) os) (map member_of os))
unfolding claim_kept prepare_target
claim_kept-AnswersEach rows before claimed [] [] same = tt
claim_kept-AnswersEach rows before claimed [] (o ∷ os) same = absurd (omega (arith, same))
claim_kept-AnswersEach rows before claimed (ep ∷ eps) [] same = absurd (omega (arith, same))
claim_kept-AnswersEach rows before claimed (ep ∷ eps) (o ∷ os) same =
    let shorter : length os ≡ length eps = omega (arith, same) in
    elim (Bool-cases (maybe_kept o)) [
      | inr settled ↦
          rw (settled, claim_kept)
            (inl refl, claim_kept-AnswersEach rows before claimed eps os shorter)
      | inl open_ ↦ elim (Option-cases (kept_row rows ep.token before claimed)) [
        | inl missed ↦
            rw (open_, missed, claim_kept)
              (inl refl, claim_kept-AnswersEach rows before claimed eps os shorter)
        | inr (kept, found) ↦
            let (r, m, token, fresh, same_id) =
              kept_row-found rows ep.token before claimed kept found in
            rw (open_, found, claim_kept)
              (
                inr (open_, (r, m, token, fresh, ap (λ id. ok id) same_id)),
                claim_kept-AnswersEach rows before (kept ∷ claimed) eps os shorter,
              )
      ]
    ]

length-outcomes_from :
    (s : Libsrt) (h : History) (id : SocketId) (all : List Target) (i : ℕ) (ts : List Target)
    → length (outcomes_from s h id all i ts) ≡ length ts
length-outcomes_from s h id all i [] = refl
length-outcomes_from s h id all i (t ∷ ts) = ap suc (length-outcomes_from s h id all (suc i) ts)

length-map : {A B : Type 0} (f : A → B) (xs : List A) → length (map f xs) ≡ length xs
length-map f [] = refl
length-map f (x ∷ xs) = ap suc (length-map f xs)

module _ (s : Libsrt) where
  claim_members-AnswersEach :
      (grp : SocketId) (before : List Row) (eps : List GroupEndpoint) (os : List Outcome)
      (h : History)
      → length os ≡ length eps
      → AnswersEach
          (read_group_rows s grp before h).0
          (map (λ r. r.id) before)
          eps
          os
          (claim_members s grp before (zip (map prepare_target eps) os) (map member_of os) h).0
  unfolding claim_members
  claim_members-AnswersEach grp before eps os h same =
      let ts = zip (map prepare_target eps) os in
      let ids = map (λ r. r.id) before in
      let rows = (read_group_rows s grp before h).0 in
      elim (Bool-cases (any (λ t. maybe_kept t.1) ts)) [
        | inr settled ↦ rw (settled, claim_members) (unclaimed-AnswersEach rows ids eps os same)
        | inl open_ ↦
            rw (open_, claim_members)
              (claim_kept-AnswersEach rows ids (spawned_ids (map member_of os)) eps os same)
      ]

  -- A connect answers each endpoint with its own result: there is one result for each endpoint, in their
  -- order; it is what libsrt wrote into that endpoint's target or, where libsrt reported neither an id nor
  -- an error there, it may be a socket that the group did not have before and that the listing after the
  -- connect gives with the endpoint's token. With no endpoint it is refused as InvalidParam, without a
  -- call.
  pub connect_group-answers :
      (grp : SocketId) (e : GroupEndpoint) (es : List GroupEndpoint) (h : History)
      → let (before, h1) = read_group_rows s grp [] h in
        let targets = map prepare_target (e ∷ es) in
        let outcomes = outcomes_from s h1 grp targets 0 targets in
        let ret = s.connect_group_ret h1 grp targets in
        let h2 = (refusal s ret outcomes (srt_connect_group grp targets ∷ h1)).1 in
        AnswersEach
          (read_group_rows s grp before h2).0
          (map (λ r. r.id) before)
          (e ∷ es)
          outcomes
          (connect_group s grp (e ∷ es) h).0.members
        × (connect_group s grp [] h
            ≡ (record { refused = some SrtError.invalid_param; members = [] }, h))
  unfolding connect_group connect_call
  connect_group-answers grp e es h =
      let (before, h1) = read_group_rows s grp [] h in
      let targets = map prepare_target (e ∷ es) in
      let outcomes = outcomes_from s h1 grp targets 0 targets in
      let ret = s.connect_group_ret h1 grp targets in
      let h2 = (refusal s ret outcomes (srt_connect_group grp targets ∷ h1)).1 in
      (
        claim_members-AnswersEach grp before (e ∷ es) outcomes h2
            (length-outcomes_from s h1 grp targets 0 targets ∙ length-map prepare_target (e ∷ es)),
        refl,
      )
