-- ===== src/Lib.antt =====
-- Verification of bilbycast-libsrt-rs, a Rust wrapper of the C library libsrt.
--
-- The program has three crates. srt-protocol holds plain data: errors, configuration, counters, a
-- received packet. libsrt-sys binds the C library. srt-transport runs one I/O thread
-- (srt-transport/src/epoll_bridge.rs) that makes every call into libsrt and keeps a `SocketState` per
-- socket; the handles in socket.rs, listener.rs and group.rs talk to it through channels.
--
-- What models what:
--   Protocol/Config      srt-protocol/src/config.rs: `SrtConfig`, its presets, the option enums
--   Protocol/Error       srt-protocol/src/error.rs: `SrtError`, its numbers, categories and texts
--   Protocol/Reject      srt-protocol/src/error.rs: `RejectReason`
--   Protocol/Stats       srt-protocol/src/stats.rs: `SrtStats`, `reset_local`
--   Protocol/Packet      srt-protocol/src/received_packet.rs: `ReceivedPacket`
--   Protocol/StreamId    srt-protocol/src/access_control.rs: `StreamIdInfo`, its parse and print
--   Protocol/Fec         srt-protocol/src/fec.rs: `FecConfig`, its parse and print
--   Bridge/StatsBridge   srt-transport/src/stats_bridge.rs
--   Bridge/Endpoint      srt-transport/src/group.rs: `GroupEndpoint` and its check
--   Bridge/Libsrt        the C library and the channels, as parameters
--   Handles/Builders     the builders of socket.rs, listener.rs and group.rs
--   Handles/Socket       srt-transport/src/socket.rs: `connect`, `from_accepted`, `close`
--   Handles/Listener     srt-transport/src/listener.rs: `bind`, `accept`, the drop
--   Handles/Group        srt-transport/src/group.rs: `connect`, `add_member`, `close`
--   Handles/Streaming    the handles' `send`, `recv`, `stats`, `member_stats`, `wait_for_state`
--   Handles/Task         the task that runs a handle's method, and what it gets back
-- and, all of srt-transport/src/epoll_bridge.rs:
--   Bridge/Status        `raw_state_to_status`, `map_member_status`, `is_terminal_status`
--   Bridge/Socket        `SocketState`, `update_status`
--   Bridge/Watch         `WatchedMember`, `classify_watched`, `next_step`
--   Bridge/Plan          `repair_plan`, `plan_repair` and the readings they rest on
--   Bridge/Connect       `connect_group`, `read_group_rows`, `superseded_linger`, `connect_timeout_of`
--   Bridge/Adding        `add_group_member`
--   Bridge/Check         `check_stranded_members`, `check_group`, `repair_stranded`
--   Bridge/Transfer      `handle_send`, `handle_recv`
--   Bridge/Accept        `handle_accept`
--   Bridge/Address       `socket_addr_to_sockaddr`, `sockaddr_to_socket_addr`
--   Bridge/Events        `process_epoll_events`, `group_err_is_real`
--   Bridge/Release       `close_and_release`, `cleanup_zombies`, `cleanup`
--   Bridge/SockOpt       libsrt's socket options and their values
--   Bridge/Options       `apply_config` and the option setters
--   Bridge/Command       `IoCommand`
--   Bridge/Queries       what `GetStats`, `GetPeerAddr` and the other queries read
--   Bridge/Registering   `RegisterSocket`, `RegisterListener`, `Close`
--   Bridge/Opening       `CreateSocket`, `Bind`, `Listen`, `Connect`
--   Bridge/Grouping      `CreateGroup`, `ConnectGroup`, `AddGroupMember`
--   Bridge/TestHook      `force_stranded`, in builds with the `test-hooks` feature
--   Bridge/Commands      `process_command`
--   Bridge/AccessControl `listen_callback_trampoline`, and the trait of srt-protocol/src/access_control.rs
--   Bridge/Loop          `io_thread_main`
-- The modules below these hold the proofs, named for what they prove; Examples holds concrete inputs.
--
-- State and calls. A computation of the I/O thread is a function of the history of calls made so far, and
-- it extends that history (`Io`). libsrt is a record of functions that answer one call each, from the
-- history before it (`Libsrt`), so its answers may change from one call to the next in any way; a theorem
-- that needs the sockets to hold still says so by `Steady`. A map from socket ids to states is an
-- association list in the order of the map's iteration. A function of the source that changes a state in
-- place returns the new one.
--
-- Numbers. Socket ids, tokens, codes and signed counters are integers, unsigned ones natural numbers;
-- the one 32-bit product that can wrap, in `from_km_field`, and byte swaps are written out. A time or a
-- duration is in nanoseconds, and the difference of two times stops at 0 as in the source. Floats are an
-- arbitrary type: the code only stores them.
--
-- Fuel. The loop of `check_group` over a list that shrinks as it goes (`sweep`) runs on fuel, one unit for
-- each member watched at its start, which is enough: a turn removes a member or moves past one. The loops
-- of the data path run over what the channel or libsrt yields before it is empty, in order.
--
-- The loop. A turn of `io_thread_main` is a function of the loop's variables and of what the turn finds:
-- the commands in the channel and whether their senders are gone, the return code of `srt_epoll_uwait`
-- and its events. A run of the thread is a chain of turns (`Reach`). The sleeps of the loop are left out,
-- but for the back-off after an epoll error.
--
-- The handles. A method of a handle is a function of the commands that its task has sent (`Task`); what an
-- awaited channel yields is a function of them too (`Replies`), so it may be any answer, a lost one or, for
-- the connect's deadline, none in time. An `accept` that is dropped part-way is a second way for it to end.
--
-- Not modelled: the getters of a handle's fields, the spawn of the I/O thread, and logging. libsrt, Tokio
-- and the generated bindings are not in the repository.
pub mod Shared
pub mod Protocol
pub mod Bridge
pub mod Handles
pub mod Examples
