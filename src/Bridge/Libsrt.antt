-- ===== src/Bridge/Libsrt.antt =====
-- The C library as a parameter. libsrt-sys binds it; its code is not in the repository. `Libsrt` gives
-- the answer of each function to one call, as a function of the calls made before it: the answers may
-- change from one call to the next in any way, as they do while libsrt's own threads run.
use bilbycast_libsrt_rs.Shared.{ℕ, suc, Bool, List, [], ◌∷◌, Option, ℤ, Text}
use bilbycast_libsrt_rs.Bridge.SockOpt.{SockOpt, OptValue}
use bilbycast_libsrt_rs.Bridge.Endpoint.{SocketAddr}
use bilbycast_libsrt_rs.Bridge.Address.{Sockaddr}
use bilbycast_libsrt_rs.Protocol.Config.{SocketStatus, MemberStatus}
use bilbycast_libsrt_rs.Protocol.Error.{Result}
use bilbycast_libsrt_rs.Protocol.Packet.{Bytes, ReceivedPacket}

abbrev pub SocketId : Type 0
SocketId = ℤ

-- libsrt's `SRT_SOCKSTATUS`: the nine constants, and any other number.
pub data RawState : Type 0 where
  srts_init srts_opened srts_listening srts_connecting srts_connected : RawState
  srts_broken srts_closing srts_closed srts_nonexist : RawState
  other_state : ℕ → RawState

-- libsrt's `SRT_MEMBERSTATUS`.
pub data RawMember : Type 0 where
  gst_pending gst_idle gst_running gst_broken : RawMember
  other_member : ℕ → RawMember

-- The fields of `SRT_SOCKGROUPDATA` that the bridge reads.
pub record Row : Type 0 where
  pub id : SocketId
  pub token : ℤ
  pub memberstate : RawMember
  pub sockstate : RawState
  pub weight : ℕ
  pub peeraddr : Sockaddr

-- `SRT_SOCKGROUPCONFIG` as `prepare_target` fills it.
pub record Target : Type 0 where
  pub src : Option SocketAddr
  pub peer : SocketAddr
  pub weight : ℕ
  pub token : ℤ

-- What `srt_connect_group` writes back into one target.
pub record Outcome : Type 0 where
  pub id : SocketId
  pub errorcode : ℤ

-- What one `srt_group_data` call returned: its return code, the count, and the rows written.
pub record GroupData : Type 0 where
  pub ret : ℤ
  pub count : ℕ
  pub rows : List Row

-- A channel end of tokio's, by its identity.
abbrev pub Channel : Type 0
Channel = ℕ

-- What one `srt_bistats` filled in, by its identity; `convert_perfmon_to_stats` reads it.
abbrev pub Snapshot : Type 0
Snapshot = ℕ

-- srt-transport/src/group.rs, `GroupMemberStats`; without a snapshot its stats are the default ones.
pub record GroupMemberStats : Type 0 where
  pub id : SocketId
  pub peer_addr : Option SocketAddr
  pub socket_status : SocketStatus
  pub member_status : MemberStatus
  pub weight : ℕ
  pub token : ℤ
  pub stats : Option Snapshot

-- One call into libsrt, one read of the clock, or one message to a channel.
pub data Call : Type 0 where
  srt_getsockstate : SocketId → Call
  srt_group_data : SocketId → (room : ℕ) → Call
  srt_connect_group : SocketId → List Target → Call
  srt_close : SocketId → Call
  srt_getsockflag : SocketId → SockOpt → Call
  srt_getlasterror : Call
  srt_sendmsg2 : SocketId → Bytes → (ret : ℤ) → Call
  srt_recvmsg2 : SocketId → Call
  srt_accept : SocketId → Call
  srt_setsockflag : SocketId → SockOpt → OptValue → Call
  srt_epoll_add_usock : SocketId → Call
  srt_epoll_remove_usock : SocketId → Call
  srt_epoll_release : Call
  instant_now : Call
  watch_send : Channel → SocketStatus → Call
  -- `send` of a packet on a receive channel
  packet_send : Channel → ReceivedPacket → Call
  -- `try_send` of an accepted socket on an accept channel, and whether it took it
  accept_try_send : Channel → SocketId → (taken : Bool) → Call
  -- `send` of the answer to a connect
  reply_send : Channel → Result (Unit {0}) → Call
  -- a receive channel asked whether its other end is gone
  asked_closed : Channel → Call
  -- the `SocketState` of the id dropped, and with it the access-control slot that it owns
  state_drop : SocketId → Call
  -- an access-control slot dropped while its state stays
  slot_drop : SocketId → Call
  srt_create_socket : (ret : ℤ) → Call
  srt_create_group : (backup : Bool) → (ret : ℤ) → Call
  srt_bind : SocketId → SocketAddr → Call
  -- the accept hook of a listener set to the slot of an access control
  srt_listen_callback : SocketId → (hook : ℕ) → (ret : ℤ) → Call
  srt_listen : SocketId → (backlog : ℤ) → (ret : ℤ) → Call
  srt_connect : SocketId → SocketAddr → Call
  srt_bistats : SocketId → Call
  srt_getpeername srt_getsockname srt_getstreamid : SocketId → Call
  -- answers to commands
  id_reply : Channel → Result SocketId → Call
  stats_reply : Channel → Result Snapshot → Call
  status_reply : Channel → SocketStatus → Call
  addr_reply : Channel → Option SocketAddr → Call
  text_reply : Channel → Text → Call
  members_reply : Channel → List GroupMemberStats → Call
  -- the thread sleeps, for milliseconds
  thread_sleep : (ms : ℕ) → Call
  -- one more in the process-wide counter `STRANDED_REPAIRS`
  stranded_repair : Call

-- The calls made so far, the latest first.
abbrev pub History : Type 0
History = List Call

pub record Libsrt : Type 0 where
  pub getsockstate : History → SocketId → RawState
  pub group_data : History → SocketId → ℕ → GroupData
  pub connect_group_ret : History → SocketId → List Target → ℤ
  pub connect_group_outcome : History → SocketId → List Target → ℕ → Outcome
  pub getsockflag_ret : History → SocketId → SockOpt → ℤ
  pub getsockflag_value : History → SocketId → SockOpt → ℤ
  pub getlasterror : History → ℤ
  pub sendmsg2 : History → SocketId → Bytes → ℤ
  pub accept : History → SocketId → ℤ
  pub create_socket : History → ℤ
  pub create_group : History → (backup : Bool) → ℤ
  pub bind : History → SocketId → SocketAddr → ℤ
  pub listen_callback : History → SocketId → (hook : ℕ) → ℤ
  pub listen : History → SocketId → (backlog : ℤ) → ℤ
  pub connect : History → SocketId → SocketAddr → ℤ
  pub bistats : History → SocketId → ℤ × Snapshot
  pub getpeername : History → SocketId → ℤ × Sockaddr
  pub getsockname : History → SocketId → ℤ × Sockaddr
  -- the return code for `SRTO_STREAMID`, and the bytes written
  pub getstreamid : History → SocketId → ℤ × Bytes
  -- tokio: an accept channel has room and a reader; a receive channel has lost its reader
  pub takes : History → Channel → Bool
  pub is_closed : History → Channel → Bool
  pub now : History → ℕ
  -- what a send channel, and libsrt's receive buffer, yield from here on before they report empty
  pub queued : History → Channel → List Bytes
  pub incoming : History → SocketId → List (Bytes × ℤ)

-- A computation on the I/O thread: it extends the history.
abbrev pub Io {ℓ} : Type ℓ → Type ℓ
Io A = History → A × History

infixl 5 ◌>>=◌ ◌>>◌
abbrev pub ◌>>=◌ {ℓ κ} : {A : Type ℓ} {B : Type κ} → Io A → (A → Io B) → Io B
◌>>=◌ m f h = let (a, h') = m h in f a h'

abbrev pub ◌>>◌ {ℓ κ} : {A : Type ℓ} {B : Type κ} → Io A → Io B → Io B
◌>>◌ m k h = let (a, h') = m h in k h'

abbrev pub pure {ℓ} : {A : Type ℓ} → A → Io A
pure a h = (a, h)

module _ (s : Libsrt) where
  abbrev pub get_state : SocketId → Io RawState
  get_state id h = (s.getsockstate h id, srt_getsockstate id ∷ h)

  abbrev pub group_data : SocketId → ℕ → Io GroupData
  group_data id room h = (s.group_data h id room, srt_group_data id room ∷ h)

  abbrev pub outcomes_from : History → SocketId → List Target → ℕ → List Target → List Outcome
  outcomes_from h id all i [] = []
  outcomes_from h id all i (t ∷ ts) =
      s.connect_group_outcome h id all i ∷ outcomes_from h id all (suc i) ts

  -- `srt_connect_group`: its return code, and the targets as it leaves them, in order.
  unfoldable pub connect_call : SocketId → List Target → Io (ℤ × List Outcome)
  connect_call id targets h = (
    (s.connect_group_ret h id targets, outcomes_from h id targets 0 targets),
    srt_connect_group id targets ∷ h,
  )

  abbrev pub get_flag : SocketId → SockOpt → Io (ℤ × ℤ)
  get_flag id flag h =
      ((s.getsockflag_ret h id flag, s.getsockflag_value h id flag), srt_getsockflag id flag ∷ h)

  abbrev pub last_error_code : Io ℤ
  last_error_code h = (s.getlasterror h, srt_getlasterror ∷ h)

  abbrev pub now : Io ℕ
  now h = (s.now h, instant_now ∷ h)

  abbrev pub send_message : SocketId → Bytes → Io ℤ
  send_message id payload h =
      let ret = s.sendmsg2 h id payload in (ret, srt_sendmsg2 id payload ret ∷ h)

  abbrev pub accept_one : SocketId → Io ℤ
  accept_one id h = (s.accept h id, srt_accept id ∷ h)

  abbrev pub try_hand : Channel → SocketId → Io Bool
  try_hand tx id h = let taken = s.takes h tx in (taken, accept_try_send tx id taken ∷ h)

  abbrev pub channel_closed : Channel → Io Bool
  channel_closed tx h = (s.is_closed h tx, asked_closed tx ∷ h)

-- A call whose answer the bridge does not read.
abbrev pub call : Call → Io (Unit {0})
call c h = (tt, c ∷ h)

abbrev pub close : SocketId → Io (Unit {0})
close id h = (tt, srt_close id ∷ h)

abbrev pub count_repair : Io (Unit {0})
count_repair h = (tt, stranded_repair ∷ h)

-- A call whose answer is given by the history before it.
abbrev pub ask {ℓ} : {A : Type ℓ} → (History → A) → (A → Call) → Io A
ask answer c h = let a = answer h in (a, c a ∷ h)
