-- ===== src/Bridge/Queries.antt =====
-- srt-transport/src/epoll_bridge.rs: what the I/O thread reads from libsrt for a query (`get_socket_stats`,
-- `get_group_member_stats`, `get_peer_addr`, `get_local_addr`, `get_stream_id`).
use bilbycast_libsrt_rs.Shared.{
  ℕ, ℤ, is_empty, not, ◌&&◌, List, [], ◌∷◌, Option, none, some, ◌==◌, is_nonneg, take,
  if◌then◌else◌, Text,
}
use bilbycast_libsrt_rs.Protocol.Error.{Result, ok, err, from_code}
use bilbycast_libsrt_rs.Bridge.Endpoint.{SocketAddr}
use bilbycast_libsrt_rs.Bridge.Address.{Endian, Sockaddr, sockaddr_to_socket_addr}
use bilbycast_libsrt_rs.Bridge.Libsrt.{
  SocketId, Row, Snapshot, GroupMemberStats, Libsrt, Io, ◌>>=◌, ◌>>◌, pure, call, last_error_code,
  group_data, srt_bistats, srt_getpeername, srt_getsockname, srt_getstreamid,
}
use bilbycast_libsrt_rs.Bridge.Status.{raw_state_to_status, map_member_status}

-- `.trim_end_matches('\0')`
unfoldable pub trim_end_nul : Text → Text
trim_end_nul [] = []
trim_end_nul (c ∷ cs) = elim (trim_end_nul cs) [
  | [] ↦ if c == 0 then [] else c ∷ []
  | (d ∷ ds) ↦ c ∷ d ∷ ds
]

module _ (s : Libsrt) where
  unfoldable pub get_socket_stats : SocketId → Io (Result Snapshot)
  get_socket_stats sock h =
      (do
        call (srt_bistats sock)
        if is_nonneg (s.bistats h sock).0
            then pure (ok (s.bistats h sock).1)
            else (do error ← last_error_code s; pure (err (from_code error))))
        h

  -- The stats of a member that libsrt cannot read are left at their defaults.
  abbrev pub stats_or_default : Result Snapshot → Option Snapshot
  stats_or_default (ok perf) = some perf
  stats_or_default (err e) = none

  unfoldable pub member_stats : Endian → List Row → Io (List GroupMemberStats)
  member_stats e [] = pure []
  member_stats e (m ∷ ms) = do
    stats ← get_socket_stats m.id
    rest ← member_stats e ms
    pure (
        record {
          id = m.id;
          peer_addr = sockaddr_to_socket_addr e (some m.peeraddr);
          socket_status = raw_state_to_status m.sockstate;
          member_status = map_member_status m.memberstate;
          weight = m.weight;
          token = m.token;
          stats = stats_or_default stats;
        }
        ∷ rest)

  -- The members are counted first, and listed into a buffer of that size.
  unfoldable pub get_group_member_stats : Endian → SocketId → Io (List GroupMemberStats)
  get_group_member_stats e group_id = do
    probe ← group_data s group_id 0
    if probe.count == 0 then pure [] else (do
      data_of ← group_data s group_id probe.count
      if is_nonneg data_of.ret then member_stats e (take data_of.count data_of.rows) else pure [])

  -- `get_peer_addr` and `get_local_addr`, once libsrt has answered.
  abbrev pub name_of : Endian → ℤ × Sockaddr → Option SocketAddr
  name_of e (ret, sa) = if is_nonneg ret then sockaddr_to_socket_addr e (some sa) else none

  unfoldable pub get_peer_addr : Endian → SocketId → Io (Option SocketAddr)
  get_peer_addr e sock h = (name_of e (s.getpeername h sock), srt_getpeername sock ∷ h)

  unfoldable pub get_local_addr : Endian → SocketId → Io (Option SocketAddr)
  get_local_addr e sock h = (name_of e (s.getsockname h sock), srt_getsockname sock ∷ h)

  -- `String::from_utf8_lossy` is std's, a parameter.
  unfoldable pub get_stream_id : (from_utf8_lossy : List ℕ → Text) → SocketId → Io Text
  get_stream_id from_utf8_lossy sock h =
      let (ret, bytes) = s.getstreamid h sock in
      (
        if is_nonneg ret && not (is_empty bytes) then trim_end_nul (from_utf8_lossy bytes) else [],
        srt_getstreamid sock ∷ h,
      )
