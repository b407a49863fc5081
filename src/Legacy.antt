-- ===== src/Legacy.antt =====
-- pico_firmware/src/legacy: parts of the firmware that CMakeLists.txt does not build.
pub mod Queue
pub mod Bits
pub mod Registry
pub mod PioUsb
pub mod Events
pub mod Mains
