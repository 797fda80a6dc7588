-- ===== src/Examples/Streams.antt =====
-- The properties of a socket's data, life and ownership at concrete inputs.
use mathlib.Core.List.{Memᴰ}
use bilbycast_libsrt_rs.Shared.{
  ◌^◌, ◌≤◌, ◌≡◌, refl, ◌↔◌, ◌⊎◌, ◌||◌, map, true, false, not, [], ◌∷◌, ◌++◌, none, some, pos, arith,
}
use bilbycast_libsrt_rs.Protocol.Config.{SocketStatus}
use bilbycast_libsrt_rs.Protocol.Error.{SrtError, ok, err}
use bilbycast_libsrt_rs.Bridge.Endpoint.{check, max_group_member_weight}
use bilbycast_libsrt_rs.Bridge.Libsrt.{
  SocketId, state_drop, srt_close, srt_connect_group, outcomes_from,
}
use bilbycast_libsrt_rs.Bridge.Status.{
  is_terminal_status, is_connected, is_connecting, raw_state_to_status, map_member_status,
}
use bilbycast_libsrt_rs.Bridge.Plan.{contains, in_flight}
use bilbycast_libsrt_rs.Bridge.Check.Calls.{closed, connects}
use bilbycast_libsrt_rs.Bridge.Socket.{SocketState, Sockets, get}
use bilbycast_libsrt_rs.Bridge.Socket.Lifetime.{update_all, terminal_drops_channels}
use bilbycast_libsrt_rs.Bridge.Connect.{
  spawned_ids, claim_members, connect_group, prepare_target, read_group_rows, refusal,
}
use bilbycast_libsrt_rs.Bridge.Connect.Claims.{Distinct, claim_members-Distinct}
use bilbycast_libsrt_rs.Bridge.Connect.Answers.{AnswersEach, connect_group-answers}
use bilbycast_libsrt_rs.Bridge.Connect.Checked.{SameFamily, check-passes}
use bilbycast_libsrt_rs.Bridge.Transfer.{is_group_id, handle_send, handle_recv}
use bilbycast_libsrt_rs.Bridge.Transfer.Order.{Conserves, handle_send-Conserves}
use bilbycast_libsrt_rs.Bridge.Transfer.Receive.{ReadInOrder, handle_recv-in_order}
use bilbycast_libsrt_rs.Bridge.Accept.{handle_accept}
use bilbycast_libsrt_rs.Bridge.Accept.Owner.{handed_over, polled, accepted_has_one_owner}
use bilbycast_libsrt_rs.Bridge.Release.{zombies, cleanup_zombies, cleanup}
use bilbycast_libsrt_rs.Bridge.Release.Order.{DropsAfterClose, answered}
use bilbycast_libsrt_rs.Bridge.Release.Drops.{drops_after_close}
use bilbycast_libsrt_rs.Bridge.Registering.{close_command}
use bilbycast_libsrt_rs.Bridge.Opening.{listen}
use bilbycast_libsrt_rs.Bridge.Release.Sweep.{
  IsAbandoned, cleanup_zombies-spares, cleanup-leaves_none,
}
use bilbycast_libsrt_rs.Bridge.Events.{Event, process_event, on_connect}
use bilbycast_libsrt_rs.Bridge.Events.Group.{Lives, live_group_survives}
use bilbycast_libsrt_rs.Bridge.Events.Connect.{Settled, on_connect-answers}
use bilbycast_libsrt_rs.Bridge.Adding.{add_group_member}
use bilbycast_libsrt_rs.Bridge.Adding.Once.{refused_without_connect, one_handshake_per_token}
use bilbycast_libsrt_rs.Examples.{
  state_of, library, library-Steady, stranded_row, endpoint, group_state,
}

-- A group that is connected, and a caller that has broken with a connect pending.
abbrev group_id : SocketId
group_id = pos (2 ^ 30)

abbrev backlogged : SocketState
backlogged = record (group_state []) { send_backlog = (1 ∷ []) ∷ [] }

abbrev dead : SocketState
dead = record (group_state []) {
  is_group = false;
  last_status = SocketStatus.broken;
  connect_reply = some 17;
  recv_tx = none;
}

abbrev tracked : Sockets
tracked = (group_id, group_state []) ∷ (pos 40, dead) ∷ []

handle_send-Conserves_example :
    let (after, h') = handle_send library group_id backlogged ((2 ∷ []) ∷ []) [] in
    Conserves library group_id ([] ++ (((1 ∷ []) ∷ []) ++ (2 ∷ []) ∷ [])) after h'
handle_send-Conserves_example =
    handle_send-Conserves library group_id backlogged ((2 ∷ []) ∷ []) [] (omega arith)

handle_recv-in_order_example :
    let (unread, h') = handle_recv library group_id tracked ((3 ∷ [], pos 0) ∷ []) [] in
    ReadInOrder 11 [] ((3 ∷ [], pos 0) ∷ []) unread h'
    × (is_group_id group_id ≡ true
        → raw_state_to_status (state_of group_id) ≡ SocketStatus.connected
        → unread ≡ [])
unfolding get
handle_recv-in_order_example =
    handle_recv-in_order library group_id tracked ((3 ∷ [], pos 0) ∷ []) [] (group_state []) 11 refl
      refl

accepted_has_one_owner_example :
    let h' = (handle_accept library group_id tracked []).1 in
    (contains (closed h') (pos 50) ≡ not (handed_over (pos 50) h'))
    × (polled (pos 50) h' ≡ handed_over (pos 50) h')
accepted_has_one_owner_example =
    accepted_has_one_owner library group_id tracked [] refl refl refl refl

drops_after_close_example :
    let h = state_drop (pos 9) ∷ srt_close (pos 9) ∷ [] in
    DropsAfterClose (cleanup_zombies library tracked h).1
    × DropsAfterClose (cleanup tracked h).1
    × DropsAfterClose (close_command (pos 40) tracked h).1
    × DropsAfterClose (listen library (pos 40) (pos 5) 3 tracked h).1
drops_after_close_example =
    drops_after_close library (pos 40) (pos 5) 3 tracked
      (state_drop (pos 9) ∷ srt_close (pos 9) ∷ []) (refl, tt)

cleanup_zombies-spares_example :
    let (sockets', h') = cleanup_zombies library tracked [] in
    (get (pos 40) sockets' ≡ some dead)
    ⊎ ((get (pos 40) sockets' ≡ none)
        × (contains (closed h') (pos 40) ≡ true)
        × IsAbandoned library [] (zombies library tracked []).1 dead)
unfolding get
cleanup_zombies-spares_example =
    cleanup_zombies-spares library tracked [] (pos 40) dead (refl, (refl, tt)) refl

cleanup-leaves_none_example :
    let h' = (cleanup tracked []).1 in
    (contains (closed h') (pos 40) ≡ true) × (dead.connect_reply ≡ some 17 → answered 17 h' ≡ true)
unfolding get
cleanup-leaves_none_example = cleanup-leaves_none tracked [] (pos 40) dead 17 refl

refused_without_connect_example :
    let ((result, sockets'), h') = add_group_member library (pos 41) (endpoint 5) tracked [] in
    (result ≡ err SrtError.connection_lost) × (sockets' ≡ tracked) × (connects h' ≡ 0)
unfolding get
refused_without_connect_example =
    refused_without_connect library (pos 41) (endpoint 5) tracked []
      (λ can. let (st, there, group, live, up) = can in cc there)

one_handshake_per_token_example :
    let ((result, sockets'), h') = add_group_member library group_id (endpoint 5) tracked [] in
    (result ≡ ok tt) × (sockets' ≡ tracked) × (connects h' ≡ 0)
unfolding get raw_state_to_status is_terminal_status read_group_rows in_flight map_member_status
one_handshake_per_token_example =
    one_handshake_per_token library group_id (endpoint 5) tracked [] stranded_row
      (group_state [], refl, refl, refl, refl) (Memᴰ.head refl) (refl, λ h. refl)

claim_members-Distinct_example : Distinct (
    spawned_ids
      (claim_members library group_id []
        ((prepare_target (endpoint 5), record { id = pos 100; errorcode = pos 0 }) ∷ [])
        (ok (pos 100) ∷ [])
        []).0)
claim_members-Distinct_example =
    claim_members-Distinct library group_id []
      ((prepare_target (endpoint 5), record { id = pos 100; errorcode = pos 0 }) ∷ [])
      (ok (pos 100) ∷ []) [] (refl, tt)

connect_group-answers_example :
    let eps = endpoint 5 ∷ endpoint 6 ∷ [] in
    let (before, h1) = read_group_rows library group_id [] [] in
    let targets = map prepare_target eps in
    let outcomes = outcomes_from library h1 group_id targets 0 targets in
    let h2 = (refusal library (pos 0) outcomes (srt_connect_group group_id targets ∷ h1)).1 in
    AnswersEach
      (read_group_rows library group_id before h2).0
      (map (λ r. r.id) before)
      eps
      outcomes
      (connect_group library group_id eps []).0.members
    × (connect_group library group_id [] []
        ≡ (record { refused = some SrtError.invalid_param; members = [] }, []))
connect_group-answers_example =
    connect_group-answers library group_id (endpoint 5) (endpoint 6 ∷ []) []

terminal_drops_channels_example :
    let was = (update_all (group_state []) [] []).0.last_status in
    let st' =
      (update_all
        (group_state [])
        ([] ++ SocketStatus.broken ∷ SocketStatus.connected ∷ [])
        []).0 in
    (st'.recv_tx ≡ none) × ((is_connected was || is_connecting was) ≡ true → st'.send_rx ≡ none)
unfolding is_terminal_status
terminal_drops_channels_example =
    terminal_drops_channels [] (SocketStatus.connected ∷ []) SocketStatus.broken (group_state []) []
      refl

check-passes_example :
    ((check (endpoint 5) ≡ ok tt)
      ↔ (SameFamily (endpoint 5) × (1 ≤ max_group_member_weight) × (true ≡ true)))
    × (check (endpoint 5) ≡ ok tt
        → prepare_target (endpoint 5)
          ≡ record { src = none; peer = (endpoint 5).addr; weight = 1; token = pos 5 })
check-passes_example = check-passes (endpoint 5)

-- Every flag at once, an error among them.
abbrev storm : Event
storm = record {
  fd = group_id;
  in_flag = true;
  out_flag = true;
  connect_flag = true;
  err_flag = true;
}

live_group_survives_example :
    Lives library group_id (group_state []) (process_event library storm tracked []).0
unfolding get raw_state_to_status is_terminal_status
live_group_survives_example =
    live_group_survives library state_of library-Steady storm (group_state []) tracked [] refl refl
      refl refl refl

on_connect-answers_example :
    let (sockets', h') = on_connect library (pos 40) tracked (some dead) [] in
    (answered 17 h' ≡ true) × Settled (pos 40) SocketStatus.connected sockets'
unfolding get raw_state_to_status
on_connect-answers_example = on_connect-answers library (pos 40) tracked dead 17 [] refl refl
