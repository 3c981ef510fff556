-- ===== src/Network/Server.antt =====
-- network/nettest.cc, `Server()` and the functions that it calls, one module for each table.
pub mod State
pub mod Locks
pub mod Conditions
pub mod Variables
pub mod Requests
pub mod Handlers
pub mod Invariant
pub mod Broadcast
pub mod Replies
pub mod Locking
pub mod Names
mod Tests
