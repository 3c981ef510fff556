-- ===== src/Userprog/Paging.antt =====
-- Demand paging: userprog/addrspace.cc, the page faults of userprog/exception.cc, and the
-- translation of machine/translate.cc.
pub mod State
pub mod Spaces
pub mod Faults
pub mod Sizes
mod Translation
mod Contents
mod Eviction
mod Frames
mod Transparency
mod Stays
mod Residence
mod Tests
