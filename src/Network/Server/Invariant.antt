-- ===== src/Network/Server/Invariant.antt =====
-- The invariant of the server's tables (network/nettest.cc), and that each request keeps it.
mod Defs
mod OfLocks
mod OfConditions
mod OfVariables
mod OfRequests
pub use Defs.*
pub use OfLocks.{remove-length}
pub use OfRequests.{step-Inv, run-Inv, owns-busy}
