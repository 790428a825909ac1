-- ===== src/Server.antt =====
-- The memory server, lib/: its messages, its memory blocks, its handlers, its connections.
pub mod Header
pub mod State
pub mod Send
pub mod Memblock
pub mod Convey
pub mod Handler
pub mod Multicast
pub mod Alloc
pub mod Connect
pub mod Rpc
pub mod Group
pub mod Machine
pub mod Threads
pub mod Store
pub mod Worker
pub mod Marked
