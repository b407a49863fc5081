-- ===== src/Legacy/PioUsb.antt =====
-- pico_firmware/src/legacy/usb_pio/pio_usb.c and pio_usb.h: USB packets as words for the PIO, two
-- bits for each level of the line. Words go out by `pio_sm_put_blocking`, and come in by
-- `pio_sm_get_blocking`; printing is left out.
pub mod Send
use usbsec.Base.{
  ℕ, zero, suc, ◌+◌, ◌-◌, ◌*◌, ◌/◌, ◌%◌, ◌^◌, Bool, true, false, Option, none, some, List, [], ◌∷◌,
  ◌++◌, ◌==◌, ◌!=◌, ◌&&◌, ltb, if◌then◌else◌, length, bit_and, bit_or, bit_xor,
}
use usbsec.Legacy.Bits.{get_bit, set_bit}

-- `USB_SYNC`: KJKJKJKK
abbrev pub usb_sync : ℕ
usb_sync = 0x999a

-- Both encodes and decodes; the assertions are that the arguments are bits.
unfoldable pub nrzi : ℕ → ℕ → ℕ
nrzi a b = bit_xor (bit_xor 1 a) b

-- `data`, `count`, and what `data_array` holds
pub record Words : Type 0 where
  pub pending : ℕ
  pub count : ℕ
  pub full : List ℕ

-- `overflow`: a word was written beyond `data_array[100]`; `overread`: a bit was read beyond the
-- bytes to send; `unfinished`: the fuel ran out
pub data Sending : Type 0 where
  done : List ℕ → Sending
  overflow overread unfinished : Sending

abbrev pub data_array_size : ℕ
data_array_size = 100

-- `data_array[data_len++] = data`
abbrev pub put_word : Words → ℕ → Option (List ℕ)
put_word w word = elim (ltb (length w.full) data_array_size) [
  | true ↦ some (w.full ++ (word ∷ []))
  | false ↦ none
]

-- the part of the loop that comes after the choice of the level
unfoldable pub put_level : Words → ℕ → Option Words
put_level w bit =
    let shifted = bit_or (bit_or (w.pending * 2 ^ 2) ((1 - bit) * 2)) bit % 2 ^ 32 in
    elim (w.count + 1 == 16) [
      | true ↦ elim (put_word w shifted) [
        | none ↦ none
        | some words ↦ some (record { pending = 0; count = 0; full = words })
      ]
      | false ↦ some (record w { pending = shifted; count = w.count + 1 })
    ]

-- what comes after a level was put, if it could be
abbrev pub after : Option Words → (Words → Sending) → Sending
after none k = overflow
after (some w) k = k w

-- the last word; a shift by the whole width, which C leaves undefined, is of the word 0 here
unfoldable pub finish : Words → Sending
finish w = elim (put_word w (w.pending * 2 ^ (2 * (16 - w.count)) % 2 ^ 32)) [
  | none ↦ overflow
  | some words ↦ done words
]

-- The loop from bit `i` on, up to bit `n`; `succ_ones` and `prev` are its variables.
unfoldable pub send_loop : ℕ → List ℕ → ℕ → ℕ → ℕ → ℕ → Words → Sending
unfolding finish put_level get_bit nrzi
send_loop zero txbuf n i succ_ones prev w = unfinished
send_loop (suc fuel) txbuf n i succ_ones prev w = elim (ltb i n) [
  | false ↦ finish w
  | true ↦ elim (succ_ones == 6) [
    | true ↦ after (put_level w 0) (send_loop fuel txbuf n i 0 0)
    | false ↦ elim (get_bit txbuf i) [
      | none ↦ overread
      | some bit ↦
          let level = nrzi bit prev in
          after (put_level w level)
            (send_loop fuel txbuf n (i + 1) (bit_or (bit * succ_ones) bit) level)
    ]
  ]
]

-- At most every other round stuffs a bit, so the fuel is two rounds for each bit, and one.
unfoldable pub pio_usb_send_se0_terminated_packet : List ℕ → ℕ → Sending
unfolding send_loop
pio_usb_send_se0_terminated_packet txbuf len =
    send_loop (16 * len + 1) txbuf (len * 8) 0 0 0
      (record { pending = usb_sync; count = 8; full = [] })

-- `rxbuf`, `len` and `last` of the reader
pub record Reader : Type 0 where
  pub rxbuf : List ℕ
  pub len : ℕ
  pub last : ℕ

-- `beyond`: a bit was written past the end of the buffer; `waits`: no word was left; `unaligned`:
-- the assertion on whole bytes failed
pub data Reading : Type 0 where
  received : ℕ → List ℕ → Reading
  beyond waits unaligned : Reading

-- `while ((data & 3) == 0 && data != 0)`: a word of 16 bits that is not 0 ends it within 8 rounds
unfoldable pub align : ℕ → ℕ → ℕ → ℕ × ℕ
align zero word count = (word, count)
align (suc rounds) word count =
    let rest = align rounds (word / 2 ^ 2) (count - 1) in
    if bit_and word 3 == 0 && word != 0 then rest else (word, count)

-- `while (count > 0)`; `none` where the buffer is too short
unfoldable pub take_bits : ℕ → ℕ → Reader → Option Reader
unfolding nrzi set_bit
take_bits zero word r = some r
take_bits (suc count) word r = elim (bit_and word 3 == 0) [
  | true ↦ some r
  | false ↦ elim (set_bit r.rxbuf r.len (nrzi (bit_and word 1) r.last)) [
    | none ↦ none
    | some rxbuf ↦
        take_bits count (word / 2 ^ 2)
          (record { rxbuf = rxbuf; len = r.len + 1; last = bit_and word 1 })
  ]
]

-- a word of the PIO, of which the upper half is dropped
abbrev pub pio_usb_get16 : ℕ → ℕ
pio_usb_get16 word = word % 2 ^ 16

-- `while (true)`, over the words that the PIO delivers
unfoldable pub read_loop : List ℕ → Reader → Reading
unfolding align take_bits
read_loop [] r = waits
read_loop (word ∷ words) r = elim (pio_usb_get16 word == 0) [
  | true ↦ if bit_and r.len 7 == 0 then received r.len r.rxbuf else unaligned
  | false ↦
      let (word', count) = align 8 (pio_usb_get16 word) 8 in
      elim (take_bits count word' r) [ none ↦ beyond | some r' ↦ read_loop words r' ]
]

unfoldable pub pio_usb_read_se0_terminated_packet : List ℕ → List ℕ → Reading
unfolding read_loop
pio_usb_read_se0_terminated_packet words rxbuf =
    read_loop words (record { rxbuf = rxbuf; len = 0; last = 0 })
