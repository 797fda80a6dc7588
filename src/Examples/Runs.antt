-- ===== src/Examples/Runs.antt =====
-- The theorems on options, filters, handles, commands and the loop at concrete inputs.
use bilbycast_libsrt_rs.Shared.{
  ℕ, ◌+◌, if◌then◌else◌, ◌≡◌, refl, true, false, List, [], ◌∷◌, some, none, pos, length, arith,
  from_millis, Text, is_nonneg,
}
use bilbycast_libsrt_rs.Protocol.Config.{default_config}
use bilbycast_libsrt_rs.Bridge.Endpoint.{v4}
use bilbycast_libsrt_rs.Bridge.Address.{little}
use bilbycast_libsrt_rs.Bridge.SockOpt.{srto_payloadsize}
use bilbycast_libsrt_rs.Bridge.Libsrt.{History, srt_listen_callback}
use bilbycast_libsrt_rs.Bridge.Socket.{SocketState, Sockets, get}
use bilbycast_libsrt_rs.Bridge.Options.{apply_config}
use bilbycast_libsrt_rs.Bridge.Options.Effective.{chosen, given_since_type}
use bilbycast_libsrt_rs.Bridge.Options.Assigned.{apply_config-given}
use bilbycast_libsrt_rs.Bridge.Release.Order.{answered}
use bilbycast_libsrt_rs.Bridge.Opening.{listen}
use bilbycast_libsrt_rs.Bridge.Opening.FailClosed.{
  listened, GivenUp, Listening, listen-fails_closed,
}
use bilbycast_libsrt_rs.Bridge.Command.{IoCommand}
use bilbycast_libsrt_rs.Bridge.Loop.{
  LoopState, Input, Turn, continue, return, turn, parked, busy, drain_commands,
}
use bilbycast_libsrt_rs.Bridge.Commands.{process_command}
use bilbycast_libsrt_rs.Bridge.Grouping.{create_group}
use bilbycast_libsrt_rs.Bridge.Registering.{insert}
use bilbycast_libsrt_rs.Bridge.Loop.Sound.{Sound}
use bilbycast_libsrt_rs.Bridge.Loop.Reach.{start, next, Reach-Sound}
use bilbycast_libsrt_rs.Handles.Builders.{
  Setting, latency, mss, live_mode, broadcast, new_socket, new_listener, new_group, set_socket,
  set_listener, set_group,
}
use bilbycast_libsrt_rs.Handles.Builders.Agree.{chain, Agree, chain-Agree}
use bilbycast_libsrt_rs.Handles.Builders.Endpoints.{add_endpoints, Numbered, add_endpoints-Numbered}
use bilbycast_libsrt_rs.Handles.Task.{Timed, Replies, Sent}
use bilbycast_libsrt_rs.Handles.Socket.{connect}
use bilbycast_libsrt_rs.Handles.Listener.{accept}
use bilbycast_libsrt_rs.Handles.Group.{connect_to_all}
use bilbycast_libsrt_rs.Handles.Owned.{
  Owned, can_connect, is_ok, holds_socket, connect-Owned, connect_to_all-Owned, accept-closes_once,
  closes, drop_taken,
}
use bilbycast_libsrt_rs.Protocol.Error.{ok}
use bilbycast_libsrt_rs.Protocol.Fec.{FecConfig, FecLayout, ArqMode, Parsed, parse_fec, print_fec}
use bilbycast_libsrt_rs.Protocol.Fec.Trip.{parse_fec-print_fec}
use bilbycast_libsrt_rs.Examples.{library, endpoint, group_state}

apply_config-given_example :
    given_since_type (pos 1) srto_payloadsize (apply_config (pos 1) default_config []).1
    ≡ chosen default_config srto_payloadsize
apply_config-given_example = apply_config-given (pos 1) default_config srto_payloadsize []

abbrev settings : List Setting
settings = latency (from_millis 200) ∷ mss 1400 ∷ live_mode ∷ []

chain-Agree_example :
    Agree
      (chain set_socket new_socket settings)
      (chain set_listener new_listener settings)
      (chain set_group (new_group broadcast) settings)
unfolding new_socket new_listener new_group
chain-Agree_example =
    chain-Agree new_socket new_listener (new_group broadcast) settings (refl, refl)

add_endpoints-Numbered_example :
    let eps =
      (add_endpoints (new_group broadcast) (v4 10 0 0 1 9000 ∷ v4 10 0 0 2 9000 ∷ [])).endpoints in
    Numbered 0 eps × (length eps ≡ 2)
add_endpoints-Numbered_example =
    add_endpoints-Numbered broadcast (v4 10 0 0 1 9000 ∷ v4 10 0 0 2 9000 ∷ []) (omega arith)

-- A listener with an access control in slot 7.
abbrev guarded : SocketState
guarded = record (group_state []) { is_group = false; access_control = some 7 }

abbrev one_listener : Sockets
one_listener = (pos 9, guarded) ∷ []

listen-fails_closed_example :
    let ret = library.listen_callback [] (pos 9) 7 in
    let listens =
      is_nonneg (library.listen (srt_listen_callback (pos 9) 7 ret ∷ []) (pos 9) (pos 5)) in
    let (sockets', h') = listen library (pos 9) (pos 5) 3 one_listener [] in
    (answered 3 h' ≡ true)
    × (is_nonneg ret ≡ false
        → GivenUp (pos 9) sockets' h' × (listened (pos 9) h' ≡ listened (pos 9) []))
    × (is_nonneg ret ≡ true → listens ≡ false → GivenUp (pos 9) sockets' h')
    × (is_nonneg ret ≡ true → listens ≡ true → Listening library (pos 9) sockets')
unfolding get
listen-fails_closed_example =
    listen-fails_closed library (pos 9) (pos 5) 3 one_listener guarded 7 [] refl refl

-- A thread that has just started, and the commands of its first two turns.
abbrev fresh : LoopState
fresh = record {
  sockets = [];
  state_poll_counter = 0;
  consecutive_epoll_errors = 0;
  last_group_sweep = 0;
  last_stranded_check = 0;
  group_rows = [];
}

abbrev creating : Input
creating = record {
  commands = IoCommand.create_group true default_config 1 ∷ [];
  disconnected = false;
  polled = pos 0;
  events = [];
}

abbrev connecting_group : Input
connecting_group = record creating {
  commands = IoCommand.connect_group (pos 1073741861) (endpoint 5 ∷ endpoint 6 ∷ []) 2 ∷ [];
}

abbrev state_of_turn : Turn → LoopState
state_of_turn (continue l) = l
state_of_turn return = fresh

abbrev utf8 : List ℕ → Text
utf8 bytes = bytes

abbrev created : Turn × History
created = turn library little utf8 creating fresh []

abbrev connected_group : Turn × History
connected_group = turn library little utf8 connecting_group (state_of_turn created.0) created.1

Reach-Sound_example : Sound (state_of_turn connected_group.0).sockets
unfolding turn parked busy drain_commands process_command create_group insert
Reach-Sound_example = Reach-Sound library little utf8 (
    next (state_of_turn connected_group.0) connected_group.1 connecting_group
      (next (state_of_turn created.0) created.1 creating (start fresh [] refl) refl) refl)

-- The I/O thread answers everything, and creates socket 40.
abbrev replies : Replies
replies = record {
  id_reply = λ h c. some (ok (pos 40));
  unit_reply = λ h c. some (ok tt);
  timed_reply = λ h c budget. Timed.elapsed;
  addr_reply = λ h c. none;
  text_reply = λ h c. none;
  accepted = λ h. some (pos 41);
}

abbrev nothing_sent : Sent
nothing_sent = record { commands = []; next = 0 }

connect-Owned_example :
    let (made, h') = connect replies new_socket (v4 10 0 0 1 9000) nothing_sent in
    Owned (λ sock. sock.id) (pos 40) made h'
connect-Owned_example =
    connect-Owned replies new_socket (v4 10 0 0 1 9000) (pos 40) nothing_sent refl refl

connect_to_all-Owned_example :
    let b = add_endpoints (new_group broadcast) (v4 10 0 0 1 9000 ∷ []) in
    let (made, h') = connect_to_all replies b nothing_sent in
    (can_connect b.endpoints ≡ true → Owned (λ group. group.id) (pos 40) made h')
    × (can_connect b.endpoints ≡ false → (is_ok made ≡ false) × (h'.commands ≡ []))
connect_to_all-Owned_example =
    connect_to_all-Owned replies (add_endpoints (new_group broadcast) (v4 10 0 0 1 9000 ∷ []))
      (pos 40) nothing_sent refl refl

accept-closes_once_example :
    let (taken, h1) = accept replies true nothing_sent in
    let (dropped, h2) = drop_taken taken h1 in
    (closes (pos 41) h1.commands ≡ (if holds_socket taken then 0 else 1) + 0)
    × (closes (pos 41) h2.commands ≡ 1)
accept-closes_once_example = accept-closes_once replies (pos 41) true nothing_sent refl

-- `fec,cols:10,rows:5,layout:even,arq:never`
abbrev filter_config : FecConfig
filter_config = record { cols = 10; rows = 5; layout = FecLayout.even; arq = ArqMode.never }

parse_fec-print_fec_example :
    parse_fec (λ text. text) (print_fec filter_config) ≡ Parsed.ok filter_config
parse_fec-print_fec_example =
    parse_fec-print_fec (λ text. text) (λ t plain. refl) filter_config (omega arith) (omega arith)
      (omega arith) (omega arith)
