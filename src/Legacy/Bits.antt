-- ===== src/Legacy/Bits.antt =====
-- pico_firmware/src/legacy/bit/bit.h: single bits of a byte array, the first bit of a byte being
-- its highest, and the order of the bits in a byte.
pub mod Access
use usbsec.Base.{
  ℕ, zero, suc, ◌+◌, ◌-◌, ◌*◌, ◌/◌, ◌%◌, ◌^◌, Bool, List, [], ◌∷◌, ◌==◌, ltb, length, Option, none,
  some, bit_and, bit_or, bit_xor, get_or, if◌then◌else◌,
}

unfoldable pub is_bit : ℕ → Bool
is_bit b = b == bit_and b 1

-- `0b111 ^ (i & 0b111)`: how far bit `i` is from the lowest of its byte
unfoldable pub shift : ℕ → ℕ
shift i = bit_xor 7 (bit_and i 7)

unfoldable pub get_byte_bit : ℕ → ℕ → ℕ
get_byte_bit byte s = bit_and (byte / 2 ^ s) 1

-- bit `i` of an array that it lies in
unfoldable pub bit_at : List ℕ → ℕ → ℕ
unfolding get_byte_bit shift
bit_at a i = get_byte_bit (get_or a (i / 8) 0) (shift i)

-- `none`: a read beyond the array
unfoldable pub get_bit : List ℕ → ℕ → Option ℕ
unfolding bit_at
get_bit a i = if ltb (i / 8) (length a) then some (bit_at a i) else none

-- `~(1 << s)` on eight bits is `255 - 2 ^ s`
unfoldable pub set_byte_bit : ℕ → ℕ → ℕ → ℕ
set_byte_bit byte s b = bit_or (bit_and byte (255 - 2 ^ s)) (b * 2 ^ s) % 2 ^ 8

abbrev pub set : List ℕ → ℕ → ℕ → List ℕ
set [] place new = []
set (byte ∷ bytes) zero new = new ∷ bytes
set (byte ∷ bytes) (suc place) new = byte ∷ set bytes place new

-- the array when bit `i` is `b`
unfoldable pub with_bit : List ℕ → ℕ → ℕ → List ℕ
unfolding set_byte_bit shift
with_bit a i b = set a (i / 8) (set_byte_bit (get_or a (i / 8) 0) (shift i) b)

-- `none`: a write beyond the array. The assertion on `b` is the caller's part: the arguments here
-- are bits.
unfoldable pub set_bit : List ℕ → ℕ → ℕ → Option (List ℕ)
unfolding with_bit
set_bit a i b = if ltb (i / 8) (length a) then some (with_bit a i b) else none

-- the three steps of `reverse`: halves, pairs and neighbours change places
unfoldable pub reverse : ℕ → ℕ
reverse b =
    let b1 = bit_or (bit_and b 0xf0 / 2 ^ 4) (bit_and b 0x0f * 2 ^ 4) % 2 ^ 8 in
    let b2 = bit_or (bit_and b1 0xcc / 2 ^ 2) (bit_and b1 0x33 * 2 ^ 2) % 2 ^ 8 in
    bit_or (bit_and b2 0xaa / 2 ^ 1) (bit_and b2 0x55 * 2 ^ 1) % 2 ^ 8
