-- ===== src/Filesys.antt =====
-- The code of nachos-csci402/code/filesys.
pub mod Headers
pub mod Directories
pub mod System
pub mod Files
