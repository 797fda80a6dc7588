-- ===== src/Bridge/Watch.antt =====
-- srt-transport/src/epoll_bridge.rs: one watched member, what a look at it finds (`classify_watched`)
-- and what the look leads to (`next_step`).
pub mod Grace
use bilbycast_libsrt_rs.Shared.{
  ℕ, ◌+◌, ◌-◌, Bool, false, ◌&&◌, ◌||◌, List, [], Option, none, some, ltb, leb, if◌then◌else◌,
  is_empty, from_millis, from_secs,
}
use bilbycast_libsrt_rs.Protocol.Config.{SocketStatus, MemberStatus}
use bilbycast_libsrt_rs.Bridge.Endpoint.{GroupEndpoint}
use bilbycast_libsrt_rs.Bridge.Libsrt.{SocketId}
use bilbycast_libsrt_rs.Bridge.Status.{
  is_terminal_status, is_connected, is_connecting, is_pending, is_broken,
}

abbrev pub stranded_member_grace : ℕ
stranded_member_grace = from_millis 500

abbrev pub max_stranded_repairs : ℕ
max_stranded_repairs = 3

abbrev pub handshake_ttl_slack : ℕ
handshake_ttl_slack = from_secs 1

abbrev pub default_connect_timeout : ℕ
default_connect_timeout = from_secs 3

abbrev pub masked_member_recheck : ℕ
masked_member_recheck = from_secs 1

abbrev pub superseded_linger_slack : ℕ
superseded_linger_slack = from_secs 1

pub record WatchedMember : Type 0 where
  pub id : SocketId
  pub endpoint : GroupEndpoint
  pub live : SocketStatus
  pub not_before : ℕ
  pub resolve_by : ℕ
  pub stranded_since : Option ℕ
  pub repairs : ℕ
  pub supersedes : List SocketId
  pub close_superseded_at : Option ℕ
  pub forced : Bool
  pub waiting : Bool

unfoldable pub new_watched : SocketId → GroupEndpoint → ℕ → ℕ → WatchedMember
new_watched id endpoint resolve_by now = record {
  id = id;
  endpoint = endpoint;
  live = SocketStatus.init;
  not_before = now;
  resolve_by = resolve_by;
  stranded_since = none;
  repairs = 0;
  supersedes = [];
  close_superseded_at = none;
  forced = false;
  waiting = false;
}

pub data Verdict : Type 0 where
  gone broken_live stranded confirmed masked handshaking : Verdict

-- The tests of `classify_watched` on a listed member.
abbrev classify_listed : SocketStatus → MemberStatus → SocketStatus → Bool → Bool → Verdict
classify_listed live member listed forced backup =
    if is_broken member
    then (if is_connected live then Verdict.broken_live else Verdict.gone)
    else if is_connected live && (forced || is_pending member || is_connecting listed)
    then Verdict.stranded
    else if is_connected listed
    then elim member [
      | MemberStatus.idle ↦ Verdict.confirmed
      | MemberStatus.running ↦ if backup then Verdict.masked else Verdict.confirmed
      | _ ↦ Verdict.handshaking
    ]
    else Verdict.handshaking

unfoldable pub classify_watched :
    SocketStatus → Option (MemberStatus × SocketStatus) → (forced backup : Bool) → Verdict
classify_watched live none forced backup = Verdict.gone
classify_watched live (some (member, listed)) forced backup =
    classify_listed live member listed forced backup

pub data Step : Type 0 where
  keep : Step
  recheck : (at : ℕ) → Step
  drop : Step
  abandon : Step
  repair : Step

-- `*o.get_or_insert(v)`, the value.
abbrev pub or_value {ℓ} : {A : Type ℓ} → Option A → A → A
or_value none v = v
or_value (some a) v = a

-- The arm of `next_step` for a member that reads stranded or broken on a live socket.
abbrev wait_for_grace : WatchedMember → ℕ → WatchedMember × Step
wait_for_grace w now =
    let since = or_value w.stranded_since now in
    (
      record w { stranded_since = some since },
      if leb stranded_member_grace (now - since) then repair else keep,
    )

-- The member after the look, and the step. `now - since` stops at 0, as `saturating_duration_since`.
unfoldable pub next_step : WatchedMember → Verdict → ℕ → WatchedMember × Step
unfolding is_terminal_status
next_step w Verdict.gone now = (w, drop)
next_step w Verdict.stranded now = wait_for_grace w now
next_step w Verdict.broken_live now = wait_for_grace w now
next_step w Verdict.confirmed now =
    (record w { stranded_since = none }, if is_empty w.supersedes then drop else keep)
next_step w Verdict.masked now = (
  record w { stranded_since = none },
  if is_empty w.supersedes then recheck (now + masked_member_recheck) else keep,
)
next_step w Verdict.handshaking now = (
  record w { stranded_since = none },
  if ltb now w.resolve_by then keep else if is_terminal_status w.live then abandon else repair,
)
