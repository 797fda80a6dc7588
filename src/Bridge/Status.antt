-- ===== src/Bridge/Status.antt =====
-- srt-transport/src/epoll_bridge.rs: libsrt's raw states as the crate's enums, and terminal states.
use bilbycast_libsrt_rs.Shared.{ℕ, Bool, true, false, ◌==◌}
use bilbycast_libsrt_rs.Protocol.Config.{SocketStatus, MemberStatus}
use bilbycast_libsrt_rs.Bridge.Libsrt.{
  RawState, srts_init, srts_opened, srts_listening, srts_connecting, srts_connected, srts_broken,
  srts_closing, srts_closed, srts_nonexist, other_state, RawMember, gst_pending, gst_idle,
  gst_running, gst_broken, other_member,
}

unfoldable pub is_terminal_status : SocketStatus → Bool
is_terminal_status SocketStatus.broken = true
is_terminal_status SocketStatus.closing = true
is_terminal_status SocketStatus.closed = true
is_terminal_status SocketStatus.non_exist = true
is_terminal_status _ = false

unfoldable pub raw_state_to_status : RawState → SocketStatus
raw_state_to_status srts_init = SocketStatus.init
raw_state_to_status srts_opened = SocketStatus.opened
raw_state_to_status srts_listening = SocketStatus.listening
raw_state_to_status srts_connecting = SocketStatus.connecting
raw_state_to_status srts_connected = SocketStatus.connected
raw_state_to_status srts_broken = SocketStatus.broken
raw_state_to_status srts_closing = SocketStatus.closing
raw_state_to_status srts_closed = SocketStatus.closed
raw_state_to_status srts_nonexist = SocketStatus.non_exist
raw_state_to_status (other_state n) = SocketStatus.non_exist

unfoldable pub map_member_status : RawMember → MemberStatus
map_member_status gst_pending = MemberStatus.pending
map_member_status gst_idle = MemberStatus.idle
map_member_status gst_running = MemberStatus.running
map_member_status gst_broken = MemberStatus.broken
map_member_status (other_member n) = MemberStatus.broken

-- `status == SocketStatus::Connected` and the like.
abbrev pub is_connected : SocketStatus → Bool
is_connected SocketStatus.connected = true
is_connected _ = false

abbrev pub is_connecting : SocketStatus → Bool
is_connecting SocketStatus.connecting = true
is_connecting _ = false

abbrev pub is_init : SocketStatus → Bool
is_init SocketStatus.init = true
is_init _ = false

abbrev pub is_pending : MemberStatus → Bool
is_pending MemberStatus.pending = true
is_pending _ = false

abbrev pub is_broken : MemberStatus → Bool
is_broken MemberStatus.broken = true
is_broken _ = false

-- `==` of two statuses, by their place in the enum.
abbrev pub place : SocketStatus → ℕ
place SocketStatus.init = 0
place SocketStatus.opened = 1
place SocketStatus.listening = 2
place SocketStatus.connecting = 3
place SocketStatus.connected = 4
place SocketStatus.broken = 5
place SocketStatus.closing = 6
place SocketStatus.closed = 7
place SocketStatus.non_exist = 8

unfoldable pub same_status : SocketStatus → SocketStatus → Bool
same_status a b = place a == place b
