-- ===== src/Bridge/Plan/Moments.antt =====
-- The readings of libsrt that the choice of a repair (`plan_repair`) rests on, each at its moment.
use mathlib.Core.List.{Memᴰ}
use bilbycast_libsrt_rs.Shared.{
  true, false, not, ◌&&◌, List, [], ◌∷◌, ◌≡◌, refl, ◌⊎◌, inl, inr, eqb, ℤ, arith, Bool-cases,
  Option-cases,
}
use bilbycast_libsrt_rs.Bridge.Libsrt.{SocketId, Row, Libsrt, Io, History, srt_getsockstate}
use bilbycast_libsrt_rs.Bridge.Status.{raw_state_to_status, map_member_status, is_connected}
use bilbycast_libsrt_rs.Bridge.Watch.{WatchedMember}
use bilbycast_libsrt_rs.Bridge.Plan.{
  at_peer, in_flight, contains, repair_chain, member_in_flight, other_member_at_peer,
  other_member_broken_live, listed_broken, spawned_sibling, find_sibling,
}

-- The first history is an earlier moment of the second, or the same.
abbrev pub Earlier : History → History → Type 0
Earlier k [] = k ≡ []
Earlier k (c ∷ h) = (k ≡ c ∷ h) ⊎ Earlier k h

pub Earlier-refl : (h : History) → Earlier h h
Earlier-refl [] = refl
Earlier-refl (c ∷ h) = inl refl

pub Earlier-trans : (a b h : History) → Earlier a b → Earlier b h → Earlier a h
Earlier-trans a b [] ab bh = rw bh at ab
Earlier-trans a b (c ∷ h) ab (inl same) = rw same at ab
Earlier-trans a b (c ∷ h) ab (inr before) = inr (Earlier-trans a b h ab before)

-- A moment from the first history on, up to the second.
abbrev pub Within : History → History → History → Type 0
Within start end moment = Earlier start moment × Earlier moment end

pub widen :
    (a start end b moment : History)
    → Earlier a start
    → Earlier end b
    → Within start end moment
    → Within a b moment
widen a start end b moment before later (from, to) =
    (Earlier-trans a start moment before from, Earlier-trans moment end b to later)

-- Another row, that is up at the peer at some moment.
abbrev pub UpAtPeer : Libsrt → History → History → List SocketId → Row → Type 0
UpAtPeer s start end exclude r =
    (contains exclude r.id ≡ false)
    × ((moment : History) × Within start end moment
        × (at_peer (map_member_status r.memberstate)
              (raw_state_to_status (s.getsockstate moment r.id))
            ≡ true))

-- Another watched member, listed Broken, on a socket that is connected at some moment.
abbrev pub BrokenButLive :
    Libsrt → History → History → List SocketId → List Row → WatchedMember → Type 0
BrokenButLive s start end exclude rows e =
    (contains exclude e.id ≡ false)
    × (listed_broken rows e.id ≡ true)
    × ((moment : History) × Within start end moment
        × (is_connected (raw_state_to_status (s.getsockstate moment e.id)) ≡ true))

-- A computation that only adds to the history.
abbrev pub Grows {ℓ} : {A : Type ℓ} → Io A → Type 0
Grows m = (h : History) → Earlier h (m h).1

module _ (s : Libsrt) where
  member_in_flight-Grows :
      (rows : List Row) (token : ℤ) (exclude : List SocketId)
      → Grows (member_in_flight s rows token exclude)
  unfolding member_in_flight
  member_in_flight-Grows [] token exclude h = Earlier-refl h
  member_in_flight-Grows (r ∷ rows) token exclude h =
      let h1 = srt_getsockstate r.id ∷ h in
      elim (Bool-cases (eqb r.token token && not (contains exclude r.id))) [
        | inr other ↦ rw (other, member_in_flight) (member_in_flight-Grows rows token exclude h)
        | inl fits ↦
            elim (Bool-cases (
              in_flight (map_member_status r.memberstate)
                (raw_state_to_status (s.getsockstate h r.id)))) [
                  | inl live ↦ rw (fits, live, member_in_flight) (inr (Earlier-refl h))
                  | inr dead ↦
                      rw (fits, dead, member_in_flight)
                        (Earlier-trans h h1 _ (inr (Earlier-refl h))
                          (member_in_flight-Grows rows token exclude h1))
                ]
      ]

  pub find_sibling-Grows :
      (w : WatchedMember) (watched spawned : List WatchedMember) (rows : List Row)
      → Grows (find_sibling s w watched spawned rows)
  unfolding find_sibling
  find_sibling-Grows w watched spawned rows h =
      let grown = member_in_flight-Grows rows w.endpoint.token (repair_chain w) h in
      let listed = member_in_flight s rows w.endpoint.token (repair_chain w) h in
      elim (Option-cases (spawned_sibling spawned w.endpoint.token)) [
        | inr (sibling, there) ↦ rw (there, find_sibling) (Earlier-refl h)
        | inl none_spawned ↦
            let same : (find_sibling s w watched spawned rows h).1 ≡ listed.1 =
              ground (arith, none_spawned) in
            rw same grown
      ]

  pub other_member_at_peer-Grows :
      (rows : List Row) (exclude : List SocketId) → Grows (other_member_at_peer s rows exclude)
  unfolding other_member_at_peer
  other_member_at_peer-Grows [] exclude h = Earlier-refl h
  other_member_at_peer-Grows (r ∷ rows) exclude h =
      let h1 = srt_getsockstate r.id ∷ h in
      elim (Bool-cases (contains exclude r.id)) [
        | inl own ↦ rw (own, other_member_at_peer) (other_member_at_peer-Grows rows exclude h)
        | inr other ↦
            elim (Bool-cases (
              at_peer (map_member_status r.memberstate)
                (raw_state_to_status (s.getsockstate h r.id)))) [
                  | inl up ↦ rw (other, up, other_member_at_peer) (inr (Earlier-refl h))
                  | inr down ↦
                      rw (other, down, other_member_at_peer)
                        (Earlier-trans h h1 _ (inr (Earlier-refl h))
                          (other_member_at_peer-Grows rows exclude h1))
                ]
      ]

  pub other_member_broken_live-Grows :
      (members : List WatchedMember) (rows : List Row) (exclude : List SocketId)
      → Grows (other_member_broken_live s members rows exclude)
  unfolding other_member_broken_live
  other_member_broken_live-Grows [] rows exclude h = Earlier-refl h
  other_member_broken_live-Grows (e ∷ members) rows exclude h =
      let h1 = srt_getsockstate e.id ∷ h in
      elim (Bool-cases (not (contains exclude e.id) && listed_broken rows e.id)) [
        | inr other ↦
            rw (other, other_member_broken_live)
              (other_member_broken_live-Grows members rows exclude h)
        | inl fits ↦
            elim (Bool-cases (is_connected (raw_state_to_status (s.getsockstate h e.id)))) [
              | inl up ↦ rw (fits, up, other_member_broken_live) (inr (Earlier-refl h))
              | inr down ↦
                  rw (fits, down, other_member_broken_live)
                    (Earlier-trans h h1 _ (inr (Earlier-refl h))
                      (other_member_broken_live-Grows members rows exclude h1))
            ]
      ]

  -- A member found up was read so at one moment of the search.
  pub other_member_at_peer-read :
      (rows : List Row) (exclude : List SocketId) (h : History)
      → (other_member_at_peer s rows exclude h).0 ≡ true
      → (r : Row) × Memᴰ r rows × UpAtPeer s h (other_member_at_peer s rows exclude h).1 exclude r
  unfolding other_member_at_peer
  other_member_at_peer-read [] exclude h found = cc
  other_member_at_peer-read (r ∷ rows) exclude h found =
      let h1 = srt_getsockstate r.id ∷ h in
      let grows = other_member_at_peer-Grows (r ∷ rows) exclude h in
      elim (Bool-cases (contains exclude r.id)) [
        | inl own ↦
            let (q, m, up) =
              other_member_at_peer-read rows exclude h (ground (arith, own, found)) in
            (q, Memᴰ.tail m, rw (own, other_member_at_peer) up)
        | inr other ↦
            elim (Bool-cases (
              at_peer (map_member_status r.memberstate)
                (raw_state_to_status (s.getsockstate h r.id)))) [
                  | inl up ↦ (r, Memᴰ.head refl, (other, (h, (Earlier-refl h, grows), up)))
                  | inr down ↦
                      let (q, m, (apart, (k, within, up))) =
                        other_member_at_peer-read rows exclude h1
                          (ground (arith, other, down, found)) in
                      let end = (other_member_at_peer s rows exclude h1).1 in
                      (
                        q,
                        Memᴰ.tail m,
                        rw (other, down, other_member_at_peer)
                            (
                              apart,
                              (
                                k,
                                widen h h1 end end k (inr (Earlier-refl h)) (Earlier-refl end)
                                    within,
                                up,
                              ),
                            ),
                      )
                ]
      ]

  pub other_member_broken_live-read :
      (members : List WatchedMember) (rows : List Row) (exclude : List SocketId) (h : History)
      → (other_member_broken_live s members rows exclude h).0 ≡ true
      → (e : WatchedMember) × Memᴰ e members
        × BrokenButLive s h (other_member_broken_live s members rows exclude h).1 exclude rows e
  unfolding other_member_broken_live
  other_member_broken_live-read [] rows exclude h found = cc
  other_member_broken_live-read (e ∷ members) rows exclude h found =
      let h1 = srt_getsockstate e.id ∷ h in
      let grows = other_member_broken_live-Grows (e ∷ members) rows exclude h in
      elim (Bool-cases (not (contains exclude e.id) && listed_broken rows e.id)) [
        | inr other ↦
            let (q, m, live) =
              other_member_broken_live-read members rows exclude h (ground (arith, other, found)) in
            (q, Memᴰ.tail m, rw (other, other_member_broken_live) live)
        | inl fits ↦
            elim (Bool-cases (is_connected (raw_state_to_status (s.getsockstate h e.id)))) [
              | inl up ↦ (
                e,
                Memᴰ.head refl,
                (ground (arith, fits), ground (arith, fits), (h, (Earlier-refl h, grows), up)),
              )
              | inr down ↦
                  let (q, m, (apart, broken, (k, within, up))) =
                    other_member_broken_live-read members rows exclude h1
                      (ground (arith, fits, down, found)) in
                  let end = (other_member_broken_live s members rows exclude h1).1 in
                  (
                    q,
                    Memᴰ.tail m,
                    rw (fits, down, other_member_broken_live)
                        (
                          apart,
                          broken,
                          (
                            k,
                            widen h h1 end end k (inr (Earlier-refl h)) (Earlier-refl end) within,
                            up,
                          ),
                        ),
                  )
            ]
      ]
