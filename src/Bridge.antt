-- ===== src/Bridge.antt =====
-- srt-transport's I/O thread: the only caller of libsrt, and the state it keeps per socket.
pub mod StatsBridge
pub mod Endpoint
pub mod SockOpt
pub mod Libsrt
pub mod Options
pub mod Status
pub mod Watch
pub mod Plan
pub mod Connect
pub mod Socket
pub mod Check
pub mod Transfer
pub mod Release
pub mod Accept
pub mod Adding
pub mod Events
pub mod Address
pub mod Command
pub mod Queries
pub mod Registering
pub mod Opening
pub mod Grouping
pub mod TestHook
pub mod Commands
pub mod Loop
pub mod AccessControl
