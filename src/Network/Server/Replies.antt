-- ===== src/Network/Server/Replies.antt =====
-- The replies of network/nettest.cc: how many a client has been sent or is owed.
mod Defs
mod OfLocks
mod OfConditions
mod OfRequests
pub use Defs.*
pub use OfRequests.*
