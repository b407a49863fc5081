-- ===== src/Legacy/PioUsb/Send.antt =====
-- What the sender puts out.
use usbsec.Base.{
  ℕ, zero, suc, ◌+◌, ◌-◌, ◌*◌, ◌/◌, ◌%◌, ◌^◌, ◌≤◌, ◌<◌, ◌≢◌, ◌≡◌, refl, sym, ap, ◌∙◌, true, false,
  Bool, Option, none, some, List, [], ◌∷◌, ◌++◌, arith, Bool-cases, inl, inr, ◌==◌, ◌&&◌, ltb,
  length, passes, passes-lt, bit_or, bit_and-1, length-append, subst,
}
use usbsec.Legacy.Bits.{bit_at, get_bit, get_byte_bit}
use usbsec.Legacy.PioUsb.{
  nrzi, Words, Sending, done, overflow, data_array_size, put_level, after, finish, send_loop,
  usb_sync, pio_usb_send_se0_terminated_packet,
}

-- the levels of `k` bits from bit `i` on, without bit stuffing: a 0 changes the level
unfoldable pub levels : List ℕ → ℕ → ℕ → ℕ → List ℕ
levels txbuf zero i prev = []
levels txbuf (suc k) i prev =
    let level = nrzi (bit_at txbuf i) prev in level ∷ levels txbuf k (i + 1) level

-- levels packed into words
pub pack : Words → List ℕ → Sending
pack w [] = finish w
pack w (l ∷ ls) = after (put_level w l) (λ w'. pack w' ls)

pub bit_at-lt : (txbuf : List ℕ) (i : ℕ) → bit_at txbuf i < 2
unfolding bit_at get_byte_bit
bit_at-lt txbuf i = omega (arith, bit_and-1)

get_bit-inside :
    (txbuf : List ℕ) (i : ℕ) → i < 8 * length txbuf → get_bit txbuf i ≡ some (bit_at txbuf i)
unfolding get_bit
get_bit-inside txbuf i h = ground arith

-- `succ_ones` never passes 1
ones_test : ℕ → Bool
ones_test s = ltb (bit_or (0 * s) 0) 2 && ltb (bit_or (1 * s) 1) 2

ones_table : passes ones_test 2 ≡ true
unfolding passes ones_test
ones_table = refl

succ_ones-lt : (bit s : ℕ) → bit < 2 → s < 2 → bit_or (bit * s) bit < 2
unfolding ones_test
succ_ones-lt zero s hb hs = ground (arith, passes-lt ones_test s hs ones_table)
succ_ones-lt (suc zero) s hb hs = ground (arith, passes-lt ones_test s hs ones_table)
succ_ones-lt (suc (suc bit)) s hb hs = absurd (omega arith)

after-eq :
    (o : Option Words) (f g : Words → Sending) → ((w : Words) → f w ≡ g w) → after o f ≡ after o g
after-eq none f g h = refl
after-eq (some w) f g h = h w

send_loop-end :
    (fuel : ℕ) (txbuf : List ℕ) (n i s prev : ℕ) (w : Words)
    → ltb i n ≡ false
    → send_loop (suc fuel) txbuf n i s prev w ≡ finish w
unfolding send_loop
send_loop-end fuel txbuf n i s prev w h = rw (h, send_loop) refl

send_loop-step :
    (fuel : ℕ) (txbuf : List ℕ) (n i s prev : ℕ) (w : Words)
    → ltb i n ≡ true
    → (s == 6) ≡ false
    → get_bit txbuf i ≡ some (bit_at txbuf i)
    → send_loop (suc fuel) txbuf n i s prev w
      ≡ after (put_level w (nrzi (bit_at txbuf i) prev)) (
          send_loop fuel txbuf n
            (i + 1)
            (bit_or (bit_at txbuf i * s) (bit_at txbuf i))
            (nrzi (bit_at txbuf i) prev))
unfolding send_loop
send_loop-step fuel txbuf n i s prev w h g inside =
    rw (h, send_loop) (rw (g, send_loop) (rw (inside, send_loop) refl))

send_loop-pack :
    (k fuel : ℕ) (txbuf : List ℕ) (n i s prev : ℕ) (w : Words)
    → k < fuel
    → i + k ≡ n
    → n ≤ 8 * length txbuf
    → s < 2
    → send_loop fuel txbuf n i s prev w ≡ pack w (levels txbuf k i prev)
unfolding pack levels
send_loop-pack k zero txbuf n i s prev w h e inside hs = absurd (omega arith)
send_loop-pack zero (suc fuel) txbuf n i s prev w h e inside hs =
    send_loop-end fuel txbuf n i s prev w (ground arith)
send_loop-pack (suc k) (suc fuel) txbuf n i s prev w h e inside hs =
    let bit = bit_at txbuf i in
    let level = nrzi bit prev in
    send_loop-step fuel txbuf n i s prev w (ground arith) (ground arith)
      (get_bit-inside txbuf i (omega arith))
    ∙ after-eq (put_level w level) (send_loop fuel txbuf n (i + 1) (bit_or (bit * s) bit) level)
        (λ w'. pack w' (levels txbuf k (i + 1) level))
        (λ w'.
          send_loop-pack k fuel txbuf n (i + 1) (bit_or (bit * s) bit) level w' (omega arith)
            (omega arith) inside (succ_ones-lt bit s (bit_at-lt txbuf i) hs))

-- what `put_level` does to the count and to the number of words
put_level-inner :
    (w : Words) (l : ℕ)
    → w.count + 1 ≢ 16
    → (w' : Words) × (put_level w l ≡ some w') × (w'.count ≡ w.count + 1) × (w'.full ≡ w.full)
unfolding put_level
put_level-inner w l h = (
  record w {
    pending = bit_or (bit_or (w.pending * 2 ^ 2) ((1 - l) * 2)) l % 2 ^ 32;
    count = w.count + 1;
  },
  ground arith,
  refl,
  refl,
)

put_level-word :
    (w : Words) (l : ℕ)
    → w.count + 1 ≡ 16
    → length w.full < data_array_size
    → (w' : Words) × (put_level w l ≡ some w')
      × (w'.count ≡ 0)
      × (length w'.full ≡ length w.full + 1)
unfolding put_level
put_level-word w l h room = (
  record {
    pending = 0;
    count = 0;
    full = w.full ++ (bit_or (bit_or (w.pending * 2 ^ 2) ((1 - l) * 2)) l % 2 ^ 32 ∷ []);
  },
  ground arith,
  refl,
  length-append w.full (bit_or (bit_or (w.pending * 2 ^ 2) ((1 - l) * 2)) l % 2 ^ 32 ∷ []),
)

put_level-beyond :
    (w : Words) (l : ℕ) → w.count + 1 ≡ 16 → data_array_size ≤ length w.full → put_level w l ≡ none
unfolding put_level
put_level-beyond w l h full = ground arith

-- how many words there are before the last
abbrev whole : Words → List ℕ → ℕ
whole w ls = length w.full + (w.count + length ls) / 16

abbrev Packs : ℕ → Sending → Type 0
Packs k r =
    (k < data_array_size → (words : List ℕ) × (r ≡ done words) × (length words ≡ k + 1))
    × (data_array_size ≤ k → r ≡ overflow)

finish-Packs : (w : Words) → w.count < 16 → Packs (whole w []) (finish w)
unfolding finish
finish-Packs w h = (
  λ room. (
    w.full ++ (w.pending * 2 ^ (2 * (16 - w.count)) % 2 ^ 32 ∷ []),
    ground arith,
    omega (arith, length-append w.full (w.pending * 2 ^ (2 * (16 - w.count)) % 2 ^ 32 ∷ [])),
  ),
  λ full. ground arith,
)

pack-Packs : (ls : List ℕ) (w : Words) → w.count < 16 → Packs (whole w ls) (pack w ls)
unfolding pack
pack-Packs [] w h = finish-Packs w h
pack-Packs (l ∷ ls) w h = elim (Bool-cases (w.count + 1 == 16)) [
  | inl last ↦ elim (Bool-cases (ltb (length w.full) data_array_size)) [
    | inl room ↦
        let at : w.count + 1 ≡ 16 = ground arith in
        let (w', put, c, f) = put_level-word w l at (ground arith) in
        subst (λ o. Packs (whole w (l ∷ ls)) (after o (λ v. pack v ls))) (sym put)
          (subst (λ k. Packs k (pack w' ls)) (omega arith) (pack-Packs ls w' (omega arith)))
    | inr beyond ↦
        subst (λ o. Packs (whole w (l ∷ ls)) (after o (λ v. pack v ls)))
          (sym (put_level-beyond w l (ground arith) (ground arith)))
          (λ few. absurd (ground arith), λ _. refl)
  ]
  | inr inner ↦
      let (w', put, c, f) = put_level-inner w l (ground arith) in
      subst (λ o. Packs (whole w (l ∷ ls)) (after o (λ v. pack v ls))) (sym put)
        (subst (λ k. Packs k (pack w' ls)) (omega (arith, ap length f))
          (pack-Packs ls w' (ground arith)))
]

-- The sender never stuffs a bit: whatever the buffer of at least `len` bytes, it returns the sync
-- word and the plain NRZI levels of the first `len` bytes, packed sixteen to a word, or overflows
-- where these do.
pub send-pack :
    (txbuf : List ℕ) (len : ℕ)
    → len ≤ length txbuf
    → pio_usb_send_se0_terminated_packet txbuf len
      ≡ pack (record { pending = usb_sync; count = 8; full = [] }) (levels txbuf (len * 8) 0 0)
unfolding pio_usb_send_se0_terminated_packet
send-pack txbuf len inside =
    send_loop-pack (len * 8) (16 * len + 1) txbuf (len * 8) 0 0 0
      (record { pending = usb_sync; count = 8; full = [] }) (omega arith) (omega arith)
      (omega arith) (omega arith)

length-levels : (txbuf : List ℕ) (k i prev : ℕ) → length (levels txbuf k i prev) ≡ k
unfolding levels
length-levels txbuf zero i prev = refl
length-levels txbuf (suc k) i prev =
    ap suc (length-levels txbuf k (i + 1) (nrzi (bit_at txbuf i) prev))

-- From a buffer that has them, a packet of at most 198 bytes goes out as `(len + 1) / 2 + 1` words; a
-- longer one is written beyond the end of `data_array`.
pub send_bounds :
    (txbuf : List ℕ) (len : ℕ)
    → len ≤ length txbuf
    → (len ≤ 198
        → (words : List ℕ) × (pio_usb_send_se0_terminated_packet txbuf len ≡ done words)
          × (length words ≡ (len + 1) / 2 + 1))
      × (198 < len → pio_usb_send_se0_terminated_packet txbuf len ≡ overflow)
send_bounds txbuf len inside =
    subst
      (λ r.
        (len ≤ 198 → (words : List ℕ) × (r ≡ done words) × (length words ≡ (len + 1) / 2 + 1))
        × (198 < len → r ≡ overflow))
      (sym (send-pack txbuf len inside))
      (
        λ few.
            let (words, e, n) = packed.0 (omega (arith, length-levels txbuf (len * 8) 0 0)) in
            (words, e, omega (arith, length-levels txbuf (len * 8) 0 0)),
        λ many. packed.1 (omega (arith, length-levels txbuf (len * 8) 0 0)),
      )
  where
    start : Words
    start = record { pending = usb_sync; count = 8; full = [] }

    packed :
        Packs (whole start (levels txbuf (len * 8) 0 0)) (pack start (levels txbuf (len * 8) 0 0))
    packed = pack-Packs (levels txbuf (len * 8) 0 0) start (omega arith)
