-- ===== src/Bridge/Plan/Alone.antt =====
-- The readings behind a plan that connects a replacement first: each other member was found down.
use mathlib.Core.List.{Memᴰ}
use bilbycast_libsrt_rs.Shared.{
  ℕ, Bool, true, false, not, ◌&&◌, List, [], ◌∷◌, ◌++◌, Option, none, some, ◌≡◌, ◌⊎◌, inl, inr,
  any-false, arith, Bool-cases,
}
use bilbycast_libsrt_rs.Bridge.Libsrt.{SocketId, Row, Libsrt, History, srt_getsockstate}
use bilbycast_libsrt_rs.Bridge.Status.{raw_state_to_status, map_member_status, is_connected}
use bilbycast_libsrt_rs.Bridge.Watch.{WatchedMember}
use bilbycast_libsrt_rs.Bridge.Plan.{
  spawn_then_close, repair_plan, weigh_others, at_peer, contains, repair_chain, find_sibling,
  other_member_at_peer, other_member_broken_live, listed_broken, other_member_handshaking,
  plan_repair,
}
use bilbycast_libsrt_rs.Bridge.Plan.Moments.{
  Earlier-refl, Earlier-trans, Within, widen, find_sibling-Grows, other_member_at_peer-Grows,
  other_member_broken_live-Grows,
}
use bilbycast_libsrt_rs.Bridge.Plan.Peer.{in_handshake}

-- The row is the member's own, or was found not up at some moment.
abbrev pub DownAtPeer : Libsrt → History → History → List SocketId → Row → Type 0
DownAtPeer s start end exclude r =
    (contains exclude r.id ≡ true)
    ⊎ ((moment : History) × Within start end moment
        × (at_peer (map_member_status r.memberstate)
              (raw_state_to_status (s.getsockstate moment r.id))
            ≡ false))

-- The watched member is the member itself, is not listed Broken, or was found not connected at some moment.
abbrev pub NotBrokenButLive :
    Libsrt → History → History → List SocketId → List Row → WatchedMember → Type 0
NotBrokenButLive s start end exclude rows e =
    (contains exclude e.id ≡ true)
    ⊎ (listed_broken rows e.id ≡ false)
    ⊎ ((moment : History) × Within start end moment
        × (is_connected (raw_state_to_status (s.getsockstate moment e.id)) ≡ false))

widen-DownAtPeer :
    (s : Libsrt) (a start end b : History) (exclude : List SocketId) (r : Row)
    → Within a end start
    → Within end b end
    → DownAtPeer s start end exclude r
    → DownAtPeer s a b exclude r
widen-DownAtPeer s a start end b exclude r before later (inl own) = inl own
widen-DownAtPeer s a start end b exclude r before later (inr (k, within, down)) =
    inr (k, widen a start end b k before.0 later.1 within, down)

widen-NotBrokenButLive :
    (s : Libsrt) (a start end b : History) (exclude : List SocketId) (rows : List Row)
    (e : WatchedMember)
    → Within a end start
    → Within end b end
    → NotBrokenButLive s start end exclude rows e
    → NotBrokenButLive s a b exclude rows e
widen-NotBrokenButLive s a start end b exclude rows e before later (inl own) = inl own
widen-NotBrokenButLive s a start end b exclude rows e before later (inr (inl fine)) = inr (inl fine)
widen-NotBrokenButLive s a start end b exclude rows e before later (inr (inr (k, within, down))) =
    inr (inr (k, widen a start end b k before.0 later.1 within, down))

module _ (s : Libsrt) where
  -- None is found up only if each was found down.
  other_member_at_peer-down :
      (rows : List Row) (exclude : List SocketId) (h : History) (r : Row)
      → (other_member_at_peer s rows exclude h).0 ≡ false
      → Memᴰ r rows
      → DownAtPeer s h (other_member_at_peer s rows exclude h).1 exclude r
  unfolding other_member_at_peer
  other_member_at_peer-down [] exclude h r found m = elim m [ ]
  other_member_at_peer-down (x ∷ rows) exclude h r found m =
      let h1 = srt_getsockstate x.id ∷ h in
      let end = (other_member_at_peer s rows exclude h1).1 in
      let grows = other_member_at_peer-Grows s (x ∷ rows) exclude h in
      elim (Bool-cases (contains exclude x.id)) [
        | inl own ↦ elim m [
          | Memᴰ.head same ↦ inl (rw same own)
          | Memᴰ.tail later ↦
              rw (own, other_member_at_peer)
                (other_member_at_peer-down rows exclude h r (ground (arith, own, found)) later)
        ]
        | inr other ↦
            elim (Bool-cases (
              at_peer (map_member_status x.memberstate)
                (raw_state_to_status (s.getsockstate h x.id)))) [
                  | inl up ↦ absurd (ground (arith, other, up, found))
                  | inr down ↦ elim m [
                    | Memᴰ.head same ↦ inr (h, (Earlier-refl h, grows), rw same down)
                    | Memᴰ.tail later ↦
                        rw (other, down, other_member_at_peer)
                          (widen-DownAtPeer s h h1 end end exclude r
                            (inr (Earlier-refl h), other_member_at_peer-Grows s rows exclude h1)
                            (Earlier-refl end, Earlier-refl end)
                            (other_member_at_peer-down rows exclude h1 r
                              (ground (arith, other, down, found)) later))
                  ]
                ]
      ]

  other_member_broken_live-down :
      (members : List WatchedMember) (rows : List Row) (exclude : List SocketId) (h : History)
      (e : WatchedMember)
      → (other_member_broken_live s members rows exclude h).0 ≡ false
      → Memᴰ e members
      → NotBrokenButLive s h (other_member_broken_live s members rows exclude h).1 exclude rows e
  unfolding other_member_broken_live
  other_member_broken_live-down [] rows exclude h e found m = elim m [ ]
  other_member_broken_live-down (x ∷ members) rows exclude h e found m =
      let h1 = srt_getsockstate x.id ∷ h in
      let end = (other_member_broken_live s members rows exclude h1).1 in
      let grows = other_member_broken_live-Grows s (x ∷ members) rows exclude h in
      elim (Bool-cases (not (contains exclude x.id) && listed_broken rows x.id)) [
        | inr other ↦ elim m [
          | Memᴰ.head same ↦ elim (Bool-cases (contains exclude x.id)) [
            | inl own ↦ inl (rw same own)
            | inr apart ↦
                let fine : listed_broken rows x.id ≡ false = ground (arith, other, apart) in
                inr (inl (rw same fine))
          ]
          | Memᴰ.tail later ↦
              rw (other, other_member_broken_live)
                (other_member_broken_live-down members rows exclude h e
                  (ground (arith, other, found)) later)
        ]
        | inl fits ↦
            elim (Bool-cases (is_connected (raw_state_to_status (s.getsockstate h x.id)))) [
              | inl up ↦ absurd (ground (arith, fits, up, found))
              | inr down ↦ elim m [
                | Memᴰ.head same ↦ inr (inr (h, (Earlier-refl h, grows), rw same down))
                | Memᴰ.tail later ↦
                    rw (fits, down, other_member_broken_live)
                      (widen-NotBrokenButLive s h h1 end end exclude rows e
                        (
                          inr (Earlier-refl h),
                          other_member_broken_live-Grows s members rows exclude h1,
                        )
                        (Earlier-refl end, Earlier-refl end)
                        (other_member_broken_live-down members rows exclude h1 e
                          (ground (arith, fits, down, found)) later))
              ]
            ]
      ]

-- A plan to connect first is made where all three readings are false.
spawn_first_readings :
    (repairs : ℕ) (sibling : Option (SocketId × Bool)) (broken up live shaking : Bool)
    → let weighed = weigh_others broken up live shaking in
      repair_plan repairs sibling weighed.0 weighed.1 ≡ spawn_then_close
      → (up ≡ false) × (live ≡ false) × (shaking ≡ false)
unfolding weigh_others repair_plan
spawn_first_readings repairs none broken up live shaking p =
    (ground (arith, p), ground (arith, p), ground (arith, p))
spawn_first_readings repairs (some (id, true)) broken up live shaking p =
    (ground (arith, p), ground (arith, p), ground (arith, p))
spawn_first_readings repairs (some (id, false)) broken up live shaking p =
    (ground (arith, p), ground (arith, p), ground (arith, p))

-- No other member is up at the peer or on its way there.
abbrev pub IsAlone :
    Libsrt → History → History → List SocketId → List Row → List WatchedMember → ℕ → Type 0
IsAlone s start end exclude rows members now =
    ((r : Row) → Memᴰ r rows → DownAtPeer s start end exclude r)
    × ((e : WatchedMember)
        → Memᴰ e members
        → (in_handshake exclude now e ≡ false) × NotBrokenButLive s start end exclude rows e)

pub spawn_first-IsAlone :
    (s : Libsrt) (w : WatchedMember) (broken : Bool) (watched spawned : List WatchedMember)
    (rows : List Row) (now : ℕ) (h : History)
    → let (plan, h') = plan_repair s w broken watched spawned rows now h in
      plan ≡ spawn_then_close → IsAlone s h h' (repair_chain w) rows (watched ++ spawned) now
unfolding plan_repair other_member_handshaking
spawn_first-IsAlone s w broken watched spawned rows now h p =
    let chain = repair_chain w in
    let members = watched ++ spawned in
    let (sibling, h1) = find_sibling s w watched spawned rows h in
    let (up, h2) = other_member_at_peer s rows chain h1 in
    let (live, h3) = other_member_broken_live s members rows chain h2 in
    let first = find_sibling-Grows s w watched spawned rows h in
    let second = other_member_at_peer-Grows s rows chain h1 in
    let third = other_member_broken_live-Grows s members rows chain h2 in
    let (no_up, no_live, no_shaking) = spawn_first_readings w.repairs sibling broken up live _ p in
    (
      λ r m.
          widen-DownAtPeer s h h1 h2 h3 chain r (first, second) (Earlier-refl h2, third)
            (other_member_at_peer-down s rows chain h1 r no_up m),
      λ e m. (
        any-false (in_handshake chain now) members no_shaking m,
        widen-NotBrokenButLive s h h2 h3 h3 chain rows e (Earlier-trans h h1 h2 first second, third)
            (Earlier-refl h3, Earlier-refl h3)
            (other_member_broken_live-down s members rows chain h2 e no_live m),
      ),
    )
