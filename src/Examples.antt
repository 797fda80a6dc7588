-- ===== src/Examples.antt =====
-- Concrete inputs for the examples: one libsrt, its sockets and its members.
pub mod Groups
pub mod Streams
pub mod Codes
pub mod Runs
pub mod Polls
use bilbycast_libsrt_rs.Shared.{
  ℕ, ◌+◌, ◌≡◌, refl, Bool, true, false, List, [], ◌∷◌, Option, none, some, ℤ, pos, negsuc, eqb,
  if◌then◌else◌,
}
use bilbycast_libsrt_rs.Protocol.Config.{SocketStatus}
use bilbycast_libsrt_rs.Bridge.Endpoint.{v4, GroupEndpoint}
use bilbycast_libsrt_rs.Bridge.Libsrt.{
  SocketId, RawState, srts_connecting, srts_connected, RawMember, gst_pending, gst_running,
  gst_broken, Row, Libsrt,
}
use bilbycast_libsrt_rs.Bridge.Address.{other_family}
use bilbycast_libsrt_rs.Bridge.Watch.{WatchedMember}
use bilbycast_libsrt_rs.Bridge.Events.Group.{Steady}
use bilbycast_libsrt_rs.Bridge.Socket.{SocketState}

-- Member 1 is in its handshake; every other socket is connected.
abbrev pub state_of : SocketId → RawState
state_of id = if eqb id (pos 1) then srts_connecting else srts_connected

-- Members 2 (stranded) and 3 (up).
abbrev pub stranded_row : Row
stranded_row = record {
  id = pos 2;
  token = pos 5;
  memberstate = gst_pending;
  sockstate = srts_connected;
  weight = 1;
  peeraddr = other_family 0;
}

abbrev pub up_row : Row
up_row = record {
  id = pos 3;
  token = pos 6;
  memberstate = gst_running;
  sockstate = srts_connected;
  weight = 1;
  peeraddr = other_family 0;
}

abbrev pub broken_row : Row
broken_row = record {
  id = pos 4;
  token = pos 7;
  memberstate = gst_broken;
  sockstate = srts_connected;
  weight = 1;
  peeraddr = other_family 0;
}

-- It lists members 2 and 3, and accepts whatever it is given.
abbrev pub library : Libsrt
library = record {
  getsockstate = λ h id. state_of id;
  group_data = λ h id room. record { ret = pos 2; count = 2; rows = stranded_row ∷ up_row ∷ [] };
  connect_group_ret = λ h id targets. pos 0;
  connect_group_outcome = λ h id targets i. record { id = pos (100 + i); errorcode = pos 0 };
  getsockflag_ret = λ h id flag. pos 0;
  getsockflag_value = λ h id flag. pos 120;
  getlasterror = λ h. pos 6001;
  sendmsg2 = λ h id payload. pos 1;
  accept = λ h id. pos 50;
  create_socket = λ h. pos 60;
  create_group = λ h b. pos 1073741861;
  bind = λ h id addr. pos 0;
  listen_callback = λ h id hook. negsuc 0;
  listen = λ h id backlog. pos 0;
  connect = λ h id addr. pos 0;
  bistats = λ h id. (pos 0, 1);
  getpeername = λ h id. (pos 0, other_family 0);
  getsockname = λ h id. (pos 0, other_family 0);
  getstreamid = λ h id. (pos 0, []);
  takes = λ h tx. true;
  is_closed = λ h tx. true;
  now = λ h. 5000000000;
  queued = λ h tx. (2 ∷ []) ∷ [];
  incoming = λ h id. (3 ∷ [], pos 0) ∷ [];
}

pub library-Steady : Steady library state_of
library-Steady = λ h id. refl

abbrev pub endpoint : ℕ → GroupEndpoint
endpoint token = record {
  addr = v4 10 0 0 1 9000;
  local_addr = none;
  weight = 1;
  token = pos token;
}

-- A member that is watched, with its live state and the ids it supersedes.
abbrev pub member : ℕ → ℕ → SocketStatus → List SocketId → WatchedMember
member id token live supersedes = record {
  id = pos id;
  endpoint = endpoint token;
  resolve_by = 4000000000;
  not_before = 0;
  live = live;
  stranded_since = none;
  waiting = false;
  forced = false;
  supersedes = supersedes;
  close_superseded_at = none;
  repairs = 0;
}

abbrev pub group_state : List WatchedMember → SocketState
group_state watched = record {
  recv_tx = some 11;
  send_rx = some 12;
  send_backlog = [];
  status_tx = some 13;
  accept_tx = none;
  access_control = none;
  is_listener = false;
  is_group = true;
  backup = false;
  last_status = SocketStatus.connected;
  connect_reply = none;
  watched = watched;
}
