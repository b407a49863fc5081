-- ===== src/Spi/Frame.antt =====
-- The frame of a transfer, as the two functions of spi_data.c agree on it.
use usbsec.Base.{ℕ, ◌/◌, ◌%◌, ◌≢◌, List, [], ◌∷◌, length}

-- A start byte, the length and the flag with their low bytes first, and the data.
abbrev pub header : ℕ → ℕ → ℕ → List ℕ → List ℕ
header start len flag bytes =
    start ∷ len % 256 ∷ len / 256 % 256 ∷ flag % 256 ∷ flag / 256 % 256 ∷ bytes

abbrev pub frame : List ℕ → ℕ → List ℕ
frame bytes flag = header 0xff (length bytes) flag bytes

-- Bytes that a receiver passes over while it waits for a start byte.
abbrev pub IsIdle : List ℕ → Type 0
IsIdle [] = Unit
IsIdle (b ∷ bytes) = (b ≢ 0xff) × IsIdle bytes
