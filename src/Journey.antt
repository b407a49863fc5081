-- ===== src/Journey.antt =====
-- Messages on their way from one side of the firmware to the other, through both microcontrollers.
pub mod Setup
pub mod Keyboard
