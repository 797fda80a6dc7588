-- ===== src/Bridge/Release/Order.antt =====
-- The order in which a socket is given up, and which sockets are.
use bilbycast_libsrt_rs.Shared.{
  ◌≡◌, refl, ◌∙◌, inl, inr, Bool, true, false, ◌||◌, List, [], ◌∷◌, Option, none, some, ◌==◌,
  eqb_refl, Bool-cases,
}
use bilbycast_libsrt_rs.Protocol.Error.{SrtError}
use bilbycast_libsrt_rs.Bridge.Libsrt.{SocketId, Channel, Libsrt, History, state_drop, reply_send}
use bilbycast_libsrt_rs.Bridge.Plan.{contains}
use bilbycast_libsrt_rs.Bridge.Check.Calls.{closed}
use bilbycast_libsrt_rs.Bridge.Socket.{SocketState, Sockets, get}
use bilbycast_libsrt_rs.Bridge.Release.{
  close_and_release, drop_released, may_be_zombie, tokio_side_gone, zombies, release_all,
  cleanup_zombies, close_all, cleanup, answer, never_polled,
}

-- Each state was dropped, and with it the access-control slot that libsrt's accept hook points to, only
-- once its socket was closed.
abbrev pub DropsAfterClose : History → Type 0
DropsAfterClose [] = Unit {0}
DropsAfterClose (state_drop id ∷ h) = (contains (closed h) id ≡ true) × DropsAfterClose h
DropsAfterClose (c ∷ h) = DropsAfterClose h

-- The connect was answered.
abbrev pub answered : Channel → History → Bool
answered reply [] = false
answered reply (reply_send k result ∷ h) = (k == reply) || answered reply h
answered reply (c ∷ h) = answered reply h

pub answer-DropsAfterClose :
    (reply : Option Channel) (e : SrtError) (h : History)
    → DropsAfterClose h
    → DropsAfterClose (answer reply e h).1
answer-DropsAfterClose none e h safe = safe
answer-DropsAfterClose (some reply) e h safe = safe

pub closed-answer :
    (reply : Option Channel) (e : SrtError) (h : History) → closed (answer reply e h).1 ≡ closed h
closed-answer none e h = refl
closed-answer (some reply) e h = refl

drop_released-DropsAfterClose :
    (id : SocketId) (o : Option SocketState) (h : History)
    → contains (closed h) id ≡ true
    → DropsAfterClose h
    → DropsAfterClose (drop_released id o h).1
drop_released-DropsAfterClose id none h shut safe = safe
drop_released-DropsAfterClose id (some st) h shut safe = (
  rw (closed-answer st.connect_reply SrtError.connection_lost h) shut,
  answer-DropsAfterClose st.connect_reply SrtError.connection_lost h safe,
)

pub closed-drop_released :
    (id : SocketId) (o : Option SocketState) (h : History)
    → closed (drop_released id o h).1 ≡ closed h
closed-drop_released id none h = refl
closed-drop_released id (some st) h = closed-answer st.connect_reply SrtError.connection_lost h

module _ (s : Libsrt) where
  tokio_side_gone-quiet :
      (tx : Option Channel) (h : History)
      → (DropsAfterClose h → DropsAfterClose (tokio_side_gone s tx h).1)
        × (closed (tokio_side_gone s tx h).1 ≡ closed h)
  tokio_side_gone-quiet none h = (λ safe. safe, refl)
  tokio_side_gone-quiet (some tx) h = (λ safe. safe, refl)

  pub zombies-quiet :
      (sockets : Sockets) (h : History)
      → (DropsAfterClose h → DropsAfterClose (zombies s sockets h).1)
        × (closed (zombies s sockets h).1 ≡ closed h)
  unfolding zombies
  zombies-quiet [] h = (λ safe. safe, refl)
  zombies-quiet ((id, st) ∷ m) h = elim (Bool-cases (may_be_zombie st)) [
    | inr other ↦ rw (other, zombies) (zombies-quiet m h)
    | inl zombie ↦
        let (asked, same) = tokio_side_gone-quiet st.recv_tx h in
        let (safe, quiet) = zombies-quiet m (tokio_side_gone s st.recv_tx h).1 in
        rw (zombie, zombies) (λ d. safe (asked d), quiet ∙ same)
  ]

pub release-DropsAfterClose :
    (id : SocketId) (sockets : Sockets) (h : History)
    → DropsAfterClose h
    → DropsAfterClose (close_and_release id sockets h).1
unfolding close_and_release
release-DropsAfterClose id sockets h safe = elim (Bool-cases (never_polled (get id sockets))) [
  | inl never ↦ rw (never, close_and_release) safe
  | inr maybe ↦ rw (maybe, close_and_release) safe
]

pub closed-close_and_release :
    (id : SocketId) (sockets : Sockets) (h : History)
    → closed (close_and_release id sockets h).1 ≡ id ∷ closed h
unfolding close_and_release
closed-close_and_release id sockets h = elim (Bool-cases (never_polled (get id sockets))) [
  | inl never ↦ rw (never, close_and_release) refl
  | inr maybe ↦ rw (maybe, close_and_release) refl
]

release_all-DropsAfterClose :
    (ids : List SocketId) (sockets : Sockets) (h : History)
    → DropsAfterClose h
    → DropsAfterClose (release_all ids sockets h).1
unfolding release_all
release_all-DropsAfterClose [] sockets h safe = safe
release_all-DropsAfterClose (id ∷ ids) sockets h safe =
    let ((released, sockets'), h1) = close_and_release id sockets h in
    let shut : contains (closed h1) id ≡ true =
      rw (closed-close_and_release id sockets h, eqb_refl id) refl in
    release_all-DropsAfterClose ids sockets' (drop_released id released h1).1 (
      drop_released-DropsAfterClose id released h1 shut (release-DropsAfterClose id sockets h safe))

close_all-DropsAfterClose :
    (sockets : Sockets) (h : History) → DropsAfterClose h → DropsAfterClose (close_all sockets h).1
unfolding close_all
close_all-DropsAfterClose [] h safe = safe
close_all-DropsAfterClose ((id, st) ∷ m) h safe = close_all-DropsAfterClose m _ (
  rw (closed-answer st.connect_reply SrtError.socket_closed, eqb_refl id) refl,
  answer-DropsAfterClose st.connect_reply SrtError.socket_closed _ safe,
)

pub sweeps-DropsAfterClose :
    (s : Libsrt) (sockets : Sockets) (h : History)
    → DropsAfterClose h
    → DropsAfterClose (cleanup_zombies s sockets h).1 × DropsAfterClose (cleanup sockets h).1
unfolding cleanup_zombies cleanup
sweeps-DropsAfterClose s sockets h safe = (
  release_all-DropsAfterClose (zombies s sockets h).0 sockets (zombies s sockets h).1
      ((zombies-quiet s sockets h).0 safe),
  close_all-DropsAfterClose sockets h safe,
)
