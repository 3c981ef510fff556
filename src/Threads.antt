-- ===== src/Threads.antt =====
-- The code of nachos-csci402/code/threads.
pub mod Lists
pub mod Locks
pub mod Semaphores
pub mod Conditions
