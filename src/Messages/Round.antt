-- ===== src/Messages/Round.antt =====
-- A whole round of `sync`: what the master has for the slave goes to it, and then what the slave has
-- for the master.
pub mod Answer
pub mod Master
pub mod Slave
pub mod Whole
