-- ===== src/Node.antt =====
-- One microcontroller: its memory, its hardware as the firmware sees it, the static variables of
-- every source file, and the actions that the handlers are written in.
pub mod Sdk
pub mod State
pub mod Monad
pub mod Keeps
pub mod Memory
pub mod Printf
