-- ===== src/Userprog.antt =====
-- The code of nachos-csci402/code/userprog.
pub mod BitMap
pub mod Paging
pub mod Clients
pub mod Processes
pub mod Tables
pub mod FileCalls
pub mod Dispatch
