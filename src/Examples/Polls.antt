-- ===== src/Examples/Polls.antt =====
-- The state poll and the wait for a status at concrete inputs: a connect that fails, and one that ends.
use bilbycast_libsrt_rs.Shared.{◌≡◌, refl, inl, true, false, List, [], ◌∷◌, some, pos}
use bilbycast_libsrt_rs.Protocol.Config.{SocketStatus}
use bilbycast_libsrt_rs.Handles.Streaming.{wait_for_state}
use bilbycast_libsrt_rs.Handles.Waiting.{EndsAtFirst, wait_for_state-first}
use bilbycast_libsrt_rs.Bridge.Libsrt.{Libsrt, srts_broken}
use bilbycast_libsrt_rs.Bridge.Status.{same_status, raw_state_to_status}
use bilbycast_libsrt_rs.Bridge.Socket.{SocketState, Sockets, get}
use bilbycast_libsrt_rs.Bridge.Release.Order.{answered}
use bilbycast_libsrt_rs.Bridge.Loop.{poll_states, keys}
use bilbycast_libsrt_rs.Bridge.Loop.Polled.{poll_states-answers}
use bilbycast_libsrt_rs.Examples.{library, group_state}

-- Every socket is broken.
abbrev broken_library : Libsrt
broken_library = record library { getsockstate = λ h id. srts_broken }

-- Socket 9 waits for its connect.
abbrev waits : SocketState
waits = record (group_state []) { is_group = false; connect_reply = some 3 }

abbrev waiting_sockets : Sockets
waiting_sockets = (pos 8, group_state []) ∷ (pos 9, waits) ∷ []

poll_states-answers_example :
    answered 3 (poll_states broken_library (keys waiting_sockets) waiting_sockets []).1 ≡ true
unfolding get same_status raw_state_to_status
poll_states-answers_example =
    poll_states-answers broken_library (pos 9) srts_broken waiting_sockets waits 3 [] (inl refl)
      (λ before. refl) refl refl refl refl

-- A connect that ends.
abbrev shown : List SocketStatus
shown = SocketStatus.connecting ∷ SocketStatus.connected ∷ SocketStatus.broken ∷ []

wait_for_state-first_example :
    EndsAtFirst SocketStatus.connected
      (SocketStatus.init ∷ shown)
      (wait_for_state SocketStatus.connected SocketStatus.init shown)
wait_for_state-first_example = wait_for_state-first SocketStatus.connected SocketStatus.init shown
