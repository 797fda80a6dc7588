-- ===== src/Handles.antt =====
-- The handles of srt-transport that a Tokio task holds (socket.rs, listener.rs, group.rs).
pub mod Builders
pub mod Task
pub mod Socket
pub mod Listener
pub mod Group
pub mod Streaming
pub mod Waiting
pub mod Owned
