-- ===== src/Bridge/Socket/Lifetime.antt =====
-- A socket's status over its life (`update_status`): what the channels and the watcher see of it.
use mathlib.Core.List.{append_assoc, append-nil}
use bilbycast_libsrt_rs.Shared.{
  ◌≡◌, refl, sym, ap, ◌∙◌, true, ◌||◌, List, [], ◌∷◌, ◌++◌, none, some, ◌==◌, ==_iff, if◌then◌else◌,
  arith,
}
use bilbycast_libsrt_rs.Protocol.Config.{SocketStatus}
use bilbycast_libsrt_rs.Bridge.Libsrt.{Channel, Io, ◌>>=◌, pure, History, watch_send}
use bilbycast_libsrt_rs.Bridge.Status.{is_terminal_status, is_connected, is_connecting}
use bilbycast_libsrt_rs.Bridge.Socket.{SocketState, announce, with_status, update_status}

-- The statuses applied one after the other, the first one first.
unfoldable pub update_all : SocketState → List SocketStatus → Io SocketState
update_all st [] = pure st
update_all st (status ∷ later) = do st' ← update_status st status; update_all st' later

-- What a status channel was sent, the first status first.
abbrev pub announced : Channel → History → List SocketStatus
announced tx [] = []
announced tx (watch_send k status ∷ h) =
    if k == tx then announced tx h ++ status ∷ [] else announced tx h
announced tx (c ∷ h) = announced tx h

with_status-keeps :
    (st : SocketState) (status : SocketStatus)
    → ((with_status st status).status_tx ≡ st.status_tx)
      × (st.recv_tx ≡ none → (with_status st status).recv_tx ≡ none)
      × (st.send_rx ≡ none → (with_status st status).send_rx ≡ none)
unfolding with_status
with_status-keeps st status = (ground arith, ground arith, ground arith)

update_all-keeps :
    (later : List SocketStatus) (st : SocketState) (h : History)
    → (st.recv_tx ≡ none → (update_all st later h).0.recv_tx ≡ none)
      × (st.send_rx ≡ none → (update_all st later h).0.send_rx ≡ none)
unfolding update_all update_status
update_all-keeps [] st h = (λ e. e, λ e. e)
update_all-keeps (status ∷ later) st h =
    let (tx, recv, send) = with_status-keeps st status in
    let (recv', send') =
      update_all-keeps later (with_status st status) (announce st.status_tx status h) in
    (λ e. recv' (recv e), λ e. send' (send e))

-- A dead socket wakes its users: among statuses applied in turn, one that is terminal drops the receive
-- channel, and no status after it brings the channel back; so it is with the send channel, where the
-- socket was Connected or Connecting when the terminal status came.
pub terminal_drops_channels :
    (before after : List SocketStatus) (dead : SocketStatus) (st : SocketState) (h : History)
    → is_terminal_status dead ≡ true
    → let was = (update_all st before h).0.last_status in
      let st' = (update_all st (before ++ dead ∷ after) h).0 in
      (st'.recv_tx ≡ none) × ((is_connected was || is_connecting was) ≡ true → st'.send_rx ≡ none)
unfolding update_all update_status with_status
terminal_drops_channels [] after dead st h t =
    let (recv, send) =
      update_all-keeps after (with_status st dead) (announce st.status_tx dead h) in
    (recv (ground (arith, t)), λ live. send (ground (arith, t, live)))
terminal_drops_channels (status ∷ before) after dead st h t =
    terminal_drops_channels before after dead (with_status st status)
      (announce st.status_tx status h) t

-- A watcher of the status is told every status, in the order they were applied.
update_all-announced :
    (statuses : List SocketStatus) (st : SocketState) (tx : Channel) (h : History)
    → st.status_tx ≡ some tx
    → announced tx (update_all st statuses h).1 ≡ announced tx h ++ statuses
unfolding update_all update_status
update_all-announced [] st tx h watched = sym (append-nil (announced tx h))
update_all-announced (status ∷ later) st tx h watched =
    let told : announced tx (announce st.status_tx status h) ≡ announced tx h ++ status ∷ [] =
      rw (watched, (==_iff tx tx).1 refl) refl in
    update_all-announced later (with_status st status) tx _
      ((with_status-keeps st status).0 ∙ watched)
    ∙ ap (λ l. l ++ later) told
    ∙ append_assoc (announced tx h) (status ∷ []) later
