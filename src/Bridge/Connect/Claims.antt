-- ===== src/Bridge/Connect/Claims.antt =====
-- The members that `connect_group` answers with.
use mathlib.Core.Option.{some-injective}
use bilbycast_libsrt_rs.Shared.{
  ◌≡◌, refl, subst, Bool, true, false, not, ◌&&◌, List, [], ◌∷◌, map, some, ℤ, eqb, eqb_iff,
  eqb_refl, find, Bool-cases, Option-cases, inl, inr, arith,
}
use bilbycast_libsrt_rs.Protocol.Error.{Result, ok, err}
use bilbycast_libsrt_rs.Bridge.Libsrt.{SocketId, Row, Target, Outcome, Libsrt, History}
use bilbycast_libsrt_rs.Bridge.Plan.{contains}
use bilbycast_libsrt_rs.Bridge.Connect.{
  spawned_ids, kept_row, claim_kept, read_group_rows, claim_members,
}

-- No id twice.
abbrev pub Distinct : List SocketId → Type 0
Distinct [] = Unit {0}
Distinct (x ∷ xs) = (contains xs x ≡ false) × Distinct xs

find-holds : {A : Type 0} (p : A → Bool) (xs : List A) (x : A) → find p xs ≡ some x → p x ≡ true
find-holds p [] x e = cc
find-holds p (y ∷ ys) x e = elim (Bool-cases (p y)) [
  | inl fits ↦ subst (λ z. p z ≡ true) (some-injective y x (ground (arith, fits))) fits
  | inr other ↦ find-holds p ys x (ground (arith, other))
]

kept_row-unclaimed :
    (rows : List Row) (token : ℤ) (before claimed : List SocketId) (kept : SocketId)
    → kept_row rows token before claimed ≡ some kept
    → contains claimed kept ≡ false
unfolding kept_row
kept_row-unclaimed rows token before claimed kept e =
    let fits : Row → Bool =
      λ r. eqb r.token token && not (contains before r.id) && not (contains claimed r.id) in
    elim (Option-cases (find fits rows)) [
      | inl missed ↦ ground (arith, missed)
      | inr (r, found) ↦ ground (arith, found, find-holds fits rows r found)
    ]

-- A claimed id among the answers stood among the members before.
claim_kept-claimed :
    (rows : List Row) (before claimed : List SocketId) (ts : List (Target × Outcome))
    (members : List (Result SocketId)) (id : SocketId)
    → contains claimed id ≡ true
    → contains (spawned_ids (claim_kept rows before claimed ts members)) id ≡ true
    → contains (spawned_ids members) id ≡ true
unfolding claim_kept
claim_kept-claimed rows before claimed [] members id c e = e
claim_kept-claimed rows before claimed (t ∷ ts) [] id c e = cc
claim_kept-claimed rows before claimed ((t, o) ∷ ts) (m ∷ ms) id c e =
    elim (Option-cases (kept_row rows t.token before claimed)) [
      | inl missed ↦ ground (arith, missed, claim_kept-claimed rows before claimed ts ms id c)
      | inr (kept, found) ↦
          let unclaimed = kept_row-unclaimed rows t.token before claimed kept found in
          let here = (eqb_iff kept id).0 in
          ground (
            arith,
            found,
            unclaimed,
            here,
            claim_kept-claimed rows before claimed ts ms id c,
            claim_kept-claimed rows before (kept ∷ claimed) ts ms id,
          )
    ]

-- Every member's id counts as claimed.
abbrev AllClaimed : List (Result SocketId) → List SocketId → Type 0
AllClaimed members claimed =
    (id : SocketId) → contains (spawned_ids members) id ≡ true → contains claimed id ≡ true

not_true : (b : Bool) → ¬ (b ≡ true) → b ≡ false
not_true true n = absurd (n refl)
not_true false n = refl

-- A row claimed for the first target, before the rest.
claim_kept-first :
    (rows : List Row) (before claimed : List SocketId) (ts : List (Target × Outcome))
    (members : List (Result SocketId)) (kept : SocketId)
    → AllClaimed members claimed
    → contains claimed kept ≡ false
    → contains (spawned_ids (claim_kept rows before (kept ∷ claimed) ts members)) kept ≡ false
claim_kept-first rows before claimed ts members kept all fresh = not_true _ (λ e.
    let stood =
      claim_kept-claimed rows before (kept ∷ claimed) ts members kept (rw (eqb_refl kept) refl) e in
    cc (fresh, all kept stood))

claim_kept-Distinct :
    (rows : List Row) (before claimed : List SocketId) (ts : List (Target × Outcome))
    (members : List (Result SocketId))
    → AllClaimed members claimed
    → Distinct (spawned_ids members)
    → Distinct (spawned_ids (claim_kept rows before claimed ts members))
unfolding claim_kept
claim_kept-Distinct rows before claimed [] members all d = d
claim_kept-Distinct rows before claimed (t ∷ ts) [] all d = tt
claim_kept-Distinct rows before claimed ((t, o) ∷ ts) (ok x ∷ ms) all d =
    let later : AllClaimed ms claimed = λ id c. all id (ground (arith, c)) in
    let x_claimed : contains claimed x ≡ true = all x (rw (eqb_refl x) refl) in
    let first =
      not_true (contains (spawned_ids (claim_kept rows before claimed ts ms)) x)
        (λ e. cc (d.0, claim_kept-claimed rows before claimed ts ms x x_claimed e)) in
    let rest = claim_kept-Distinct rows before claimed ts ms later d.1 in
    elim (Option-cases (kept_row rows t.token before claimed)) [
      | inl missed ↦ ground (arith, missed, first, rest)
      | inr (kept, found) ↦
          let unclaimed = kept_row-unclaimed rows t.token before claimed kept found in
          let claim = claim_kept-first rows before claimed ts ms kept later unclaimed in
          let rest' =
            claim_kept-Distinct rows before (kept ∷ claimed) ts ms
              (λ id c. ground (arith, later id c)) d.1 in
          ground (arith, found, first, rest, claim, rest')
    ]
claim_kept-Distinct rows before claimed ((t, o) ∷ ts) (err e ∷ ms) all d =
    let rest = claim_kept-Distinct rows before claimed ts ms all d in
    elim (Option-cases (kept_row rows t.token before claimed)) [
      | inl missed ↦ ground (arith, missed, rest)
      | inr (kept, found) ↦
          let unclaimed = kept_row-unclaimed rows t.token before claimed kept found in
          let claim = claim_kept-first rows before claimed ts ms kept all unclaimed in
          let rest' =
            claim_kept-Distinct rows before (kept ∷ claimed) ts ms
              (λ id c. ground (arith, all id c)) d in
          ground (arith, found, rest, claim, rest')
    ]

module _ (s : Libsrt) where
  -- No two endpoints get one member: where libsrt names no socket twice, the members that a group
  -- connect answers with are pairwise distinct, the ones it finds by the listing included.
  pub claim_members-Distinct :
      (grp : SocketId) (before : List Row) (ts : List (Target × Outcome))
      (members : List (Result SocketId)) (h : History)
      → Distinct (spawned_ids members)
      → Distinct (spawned_ids (claim_members s grp before ts members h).0)
  unfolding claim_members
  claim_members-Distinct grp before ts members h d =
      let (rows, h') = read_group_rows s grp before h in
      let claimed =
        claim_kept-Distinct rows (map (λ r. r.id) before) (spawned_ids members) ts members
          (λ id c. c) d in
      ground (arith, d, claimed)
