-- ===== src/Network.antt =====
-- network/nettest.cc: the server of locks, condition variables and monitor variables.
pub mod Server
