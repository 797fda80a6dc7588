-- ===== src/Bridge/Release/Sweep.antt =====
-- Which sockets the zombie sweep and the shutdown give up.
use bilbycast_libsrt_rs.Shared.{
  ◌≡◌, refl, sym, ap, ◌∙◌, ◌⊎◌, inl, inr, true, false, ◌||◌, List, [], ◌∷◌, Option, none, some,
  if◌then◌else◌, eqb, eqb_iff, Bool-cases, arith,
}
use bilbycast_libsrt_rs.Protocol.Error.{SrtError}
use bilbycast_libsrt_rs.Bridge.Libsrt.{
  SocketId, Channel, Libsrt, History, state_drop, srt_close, srt_epoll_remove_usock,
}
use bilbycast_libsrt_rs.Bridge.Status.{is_terminal_status}
use bilbycast_libsrt_rs.Bridge.Plan.{contains}
use bilbycast_libsrt_rs.Bridge.Plan.Moments.{Earlier, Earlier-refl, Earlier-trans, Within, widen}
use bilbycast_libsrt_rs.Bridge.Check.Calls.{closed}
use bilbycast_libsrt_rs.Bridge.Socket.{SocketState, Sockets, get, remove}
use bilbycast_libsrt_rs.Bridge.Release.{
  close_and_release, drop_released, may_be_zombie, tokio_side_gone, zombies, release_all,
  cleanup_zombies, close_all, cleanup, answer,
}
use bilbycast_libsrt_rs.Bridge.Release.Order.{
  answered, closed-answer, closed-drop_released, closed-close_and_release,
}

-- A map has one entry for each key.
abbrev pub UniqueKeys : Sockets → Type 0
UniqueKeys [] = Unit {0}
UniqueKeys ((id, st) ∷ m) = (get id m ≡ none) × UniqueKeys m

pub get-remove :
    (id k : SocketId) (m : Sockets) → get id (remove k m) ≡ (if eqb k id then none else get id m)
unfolding get remove
get-remove id k [] = ground arith
get-remove id k ((j, st) ∷ m) =
    ground (arith, get-remove id k m, eqb_iff j k, eqb_iff j id, eqb_iff k id)

zombies-absent :
    (s : Libsrt) (m : Sockets) (h : History) (id : SocketId)
    → get id m ≡ none
    → contains (zombies s m h).0 id ≡ false
unfolding zombies get
zombies-absent s [] h id gone = refl
zombies-absent s ((k, v) ∷ m) h id gone =
    ground (arith, zombies-absent s m h id, zombies-absent s m (tokio_side_gone s v.recv_tx h).1 id)

-- The handle of the socket is gone: its receive channel was dropped, or lost its reader by some moment.
abbrev pub HandleGone : Libsrt → History → History → Option Channel → Type 0
HandleGone s start end recv_tx =
    (recv_tx ≡ none)
    ⊎ ((tx : Channel) × (recv_tx ≡ some tx)
        × ((moment : History) × Within start end moment × (s.is_closed moment tx ≡ true)))

-- A dead socket that nobody reads, neither a listener nor a group.
abbrev pub IsAbandoned : Libsrt → History → History → SocketState → Type 0
IsAbandoned s start end st =
    (is_terminal_status st.last_status ≡ true)
    × (st.is_listener ≡ false)
    × (st.is_group ≡ false)
    × HandleGone s start end st.recv_tx

tokio_side_gone-Grows :
    (s : Libsrt) (tx : Option Channel) (h : History) → Earlier h (tokio_side_gone s tx h).1
tokio_side_gone-Grows s none h = Earlier-refl h
tokio_side_gone-Grows s (some tx) h = inr (Earlier-refl h)

tokio_side_gone-HandleGone :
    (s : Libsrt) (recv_tx : Option Channel) (h : History)
    → (tokio_side_gone s recv_tx h).0 ≡ true
    → HandleGone s h (tokio_side_gone s recv_tx h).1 recv_tx
tokio_side_gone-HandleGone s none h gone = inl refl
tokio_side_gone-HandleGone s (some tx) h gone =
    inr (tx, refl, (h, (Earlier-refl h, inr (Earlier-refl h)), gone))

zombies-Grows : (s : Libsrt) (m : Sockets) (h : History) → Earlier h (zombies s m h).1
unfolding zombies
zombies-Grows s [] h = Earlier-refl h
zombies-Grows s ((k, v) ∷ m) h = elim (Bool-cases (may_be_zombie v)) [
  | inr other ↦ rw (other, zombies) (zombies-Grows s m h)
  | inl dead ↦
      let h1 = (tokio_side_gone s v.recv_tx h).1 in
      rw (dead, zombies)
        (Earlier-trans h h1 _ (tokio_side_gone-Grows s v.recv_tx h) (zombies-Grows s m h1))
]

widen-IsAbandoned :
    (s : Libsrt) (a start end b : History) (st : SocketState)
    → Earlier a start
    → Earlier end b
    → IsAbandoned s start end st
    → IsAbandoned s a b st
widen-IsAbandoned s a start end b st before later (dead, single, caller, inl dropped) =
    (dead, single, caller, inl dropped)
widen-IsAbandoned s a start end b st before later
      (dead, single, caller, inr (tx, has, (k, within, shut))) =
    (dead, single, caller, inr (tx, has, (k, widen a start end b k before later within, shut)))

zombies-are :
    (s : Libsrt) (sockets : Sockets) (h : History) (id : SocketId) (st : SocketState)
    → UniqueKeys sockets
    → get id sockets ≡ some st
    → contains (zombies s sockets h).0 id ≡ true
    → IsAbandoned s h (zombies s sockets h).1 st
unfolding zombies get
zombies-are s [] h id st unique there listed = cc
zombies-are s ((k, v) ∷ m) h id st unique there listed =
    let (gone, h1) = tokio_side_gone s v.recv_tx h in
    let end = (zombies s m h1).1 in
    let asked = tokio_side_gone-Grows s v.recv_tx h in
    elim (Bool-cases (may_be_zombie v)) [
      | inr other ↦ elim (Bool-cases (eqb k id)) [
        | inl same ↦
            let absent : get id m ≡ none = rw (sym ((eqb_iff k id).0 same)) unique.0 in
            absurd (ground (arith, other, listed, zombies-absent s m h id absent))
        | inr apart ↦
            rw (other, zombies)
              (zombies-are s m h id st unique.1 (ground (arith, apart, there))
                (ground (arith, other, listed)))
      ]
      | inl dead ↦ elim (Bool-cases (eqb k id)) [
        | inl same ↦
            let absent : get id m ≡ none = rw (sym ((eqb_iff k id).0 same)) unique.0 in
            let here : v ≡ st = ground (arith, same, there) in
            let found : gone ≡ true =
              ground (arith, dead, listed, zombies-absent s m h1 id absent) in
            rw (dead, zombies, ← here)
              (widen-IsAbandoned s h h h1 end v (Earlier-refl h) (zombies-Grows s m h1) (
                ground (arith, dead),
                ground (arith, dead),
                ground (arith, dead),
                tokio_side_gone-HandleGone s v.recv_tx h found,
              ))
        | inr apart ↦
            rw (dead, zombies)
              (widen-IsAbandoned s h h1 end end st asked (Earlier-refl end) (
                zombies-are s m h1 id st unique.1 (ground (arith, apart, there))
                  (ground (arith, dead, apart, listed))))
      ]
    ]

pub released-sockets :
    (id : SocketId) (sockets : Sockets) (h : History)
    → (close_and_release id sockets h).0.1 ≡ remove id sockets
unfolding close_and_release
released-sockets id sockets h = refl

get-release_all :
    (ids : List SocketId) (sockets : Sockets) (h : History) (id : SocketId)
    → (get id (release_all ids sockets h).0 ≡ (if contains ids id then none else get id sockets))
      × (contains (closed (release_all ids sockets h).1) id
          ≡ (contains ids id || contains (closed h) id))
unfolding release_all
get-release_all [] sockets h id = (refl, refl)
get-release_all (k ∷ ids) sockets h id =
    let ((released, sockets'), h1) = close_and_release k sockets h in
    let h2 = (drop_released k released h1).1 in
    let (kept, shut) = get-release_all ids sockets' h2 id in
    (
      kept ∙ rw (released-sockets k sockets h) (ground (arith, get-remove id k sockets)),
      shut
          ∙ rw (closed-drop_released k released h1, closed-close_and_release k sockets h)
              (ground arith),
    )

-- The zombie sweep gives up no socket in use: after it, a tracked socket is as it was; or it is not
-- tracked any more, it was closed, and it was abandoned: it had broken, closed or gone before, it was
-- neither a listener nor a group, and its receive channel was dropped or, asked during the sweep, had no
-- reader.
pub cleanup_zombies-spares :
    (s : Libsrt) (sockets : Sockets) (h : History) (id : SocketId) (st : SocketState)
    → UniqueKeys sockets
    → get id sockets ≡ some st
    → let (sockets', h') = cleanup_zombies s sockets h in
      (get id sockets' ≡ some st)
      ⊎ ((get id sockets' ≡ none)
          × (contains (closed h') id ≡ true)
          × IsAbandoned s h (zombies s sockets h).1 st)
unfolding cleanup_zombies
cleanup_zombies-spares s sockets h id st unique there =
    let (ids, h1) = zombies s sockets h in
    let (kept, shut) = get-release_all ids sockets h1 id in
    elim (Bool-cases (contains ids id)) [
      | inl listed ↦ inr (
        kept ∙ rw listed refl,
        shut ∙ rw listed refl,
        zombies-are s sockets h id st unique there listed,
      )
      | inr spared ↦ inl (kept ∙ rw (spared, there) refl)
    ]

answered-answer :
    (r : Option Channel) (e : SrtError) (h : History) (reply : Channel)
    → (answered reply h ≡ true → answered reply (answer r e h).1 ≡ true)
      × (r ≡ some reply → answered reply (answer r e h).1 ≡ true)
answered-answer none e h reply = (λ a. a, λ p. cc)
answered-answer (some k) e h reply = (ground arith, ground arith)

close_all-keeps :
    (m : Sockets) (h : History) (id : SocketId) (reply : Channel)
    → (contains (closed h) id ≡ true → contains (closed (close_all m h).1) id ≡ true)
      × (answered reply h ≡ true → answered reply (close_all m h).1 ≡ true)
unfolding close_all
close_all-keeps [] h id reply = (λ c. c, λ a. a)
close_all-keeps ((k, v) ∷ m) h id reply =
    let h1 = srt_close k ∷ srt_epoll_remove_usock k ∷ h in
    let (closed_later, answered_later) =
      close_all-keeps m (state_drop k ∷ (answer v.connect_reply SrtError.socket_closed h1).1) id
        reply in
    (
      λ c.
          closed_later
            (rw (closed-answer v.connect_reply SrtError.socket_closed h1) (ground arith)),
      λ a. answered_later ((answered-answer v.connect_reply SrtError.socket_closed h1 reply).0 a),
    )

-- The shutdown leaves no socket and no caller behind: every tracked socket is closed, and a connect that
-- was pending on it is answered.
pub cleanup-leaves_none :
    (sockets : Sockets) (h : History) (id : SocketId) (st : SocketState) (reply : Channel)
    → get id sockets ≡ some st
    → let h' = (cleanup sockets h).1 in
      (contains (closed h') id ≡ true) × (st.connect_reply ≡ some reply → answered reply h' ≡ true)
unfolding cleanup close_all get
cleanup-leaves_none [] h id st reply there = cc
cleanup-leaves_none ((k, v) ∷ m) h id st reply there =
    let h1 = srt_close k ∷ srt_epoll_remove_usock k ∷ h in
    let h2 = state_drop k ∷ (answer v.connect_reply SrtError.socket_closed h1).1 in
    elim (Bool-cases (eqb k id)) [
      | inr other ↦ cleanup-leaves_none m h2 id st reply (ground (arith, other))
      | inl same ↦
          let here : v ≡ st = ground (arith, same) in
          let (closed_later, answered_later) = close_all-keeps m h2 id reply in
          (
            closed_later (rw (closed-answer v.connect_reply SrtError.socket_closed h1, same) refl),
            λ p. answered_later (
                (answered-answer v.connect_reply SrtError.socket_closed h1 reply).1
                  (ap (λ u. u.connect_reply) here ∙ p)),
          )
    ]
