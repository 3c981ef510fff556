-- ===== src/Machine.antt =====
-- The code of nachos-csci402/code/machine.
pub mod Interrupts
