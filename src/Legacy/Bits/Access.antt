-- ===== src/Legacy/Bits/Access.antt =====
-- Writing and reading bits, and reversing a byte.
use usbsec.Base.{
  some, ℕ, zero, suc, ◌-◌, ◌*◌, ◌/◌, ◌%◌, ◌<◌, ◌≡◌, refl, ap, ◌∙◌, true, Bool, List, [], ◌∷◌, arith,
  ◌==◌, ◌&&◌, ==_true, get_or, length, passes, passes-lt, bit_xor, bit_and-7, if◌then◌else◌,
}
use usbsec.Legacy.Bits.{
  shift, get_byte_bit, get_bit, set_byte_bit, set, bit_at, with_bit, set_bit, reverse,
}

-- the bits of a reversed byte, over all bytes
reverse_test : ℕ → Bool
reverse_test b =
    (reverse (reverse b) == b)
    && passes (λ s. get_byte_bit (reverse b) s == get_byte_bit b (7 - s)) 8

reverse_table : passes reverse_test 256 ≡ true
unfolding passes reverse_test reverse get_byte_bit
reverse_table = refl

write_test : ℕ → Bool
write_test b =
    passes
      (λ s.
        passes
          (λ v.
            passes
              (λ t. get_byte_bit (set_byte_bit b s v) t == (if s == t then v else get_byte_bit b t))
              8)
          2)
      8

write_table : passes write_test 256 ≡ true
unfolding passes write_test set_byte_bit get_byte_bit
write_table = refl

-- what the tables say
reverse_bits : (b : ℕ) → b < 256 → reverse_test b ≡ true
reverse_bits b small = passes-lt reverse_test b small reverse_table

both : (a b : Bool) → (a && b) ≡ true → (a ≡ true) × (b ≡ true)
both a b h = ground arith

-- `reverse` mirrors the bits of a byte: bit `s` of the result is bit `7 - s` of the argument, and
-- reversing twice gives the byte back.
pub reverse_lem :
    (b : ℕ)
    → b < 256
    → (reverse (reverse b) ≡ b)
      × ((s : ℕ) → s < 8 → get_byte_bit (reverse b) s ≡ get_byte_bit b (7 - s))
unfolding reverse_test
reverse_lem b small =
    let (twice, bits) = both (reverse (reverse b) == b) _ (reverse_bits b small) in
    (
      ==_true (reverse (reverse b)) b twice,
      λ s h.
          ==_true _ _
            (passes-lt (λ t. get_byte_bit (reverse b) t == get_byte_bit b (7 - t)) s h bits),
    )

byte_bit :
    (b s v t : ℕ)
    → b < 256
    → s < 8
    → v < 2
    → t < 8
    → get_byte_bit (set_byte_bit b s v) t ≡ (if s == t then v else get_byte_bit b t)
unfolding write_test
byte_bit b s v t hb hs hv ht = ==_true _ _ (
    passes-lt
      (λ (k : ℕ). get_byte_bit (set_byte_bit b s v) k == (if s == k then v else get_byte_bit b k)) t
      ht
      (passes-lt
        (λ (w : ℕ).
          passes
            (λ k. get_byte_bit (set_byte_bit b s w) k == (if s == k then w else get_byte_bit b k))
            8)
        v hv
        (passes-lt
          (λ (r : ℕ).
            passes
              (λ w.
                passes
                  (λ k.
                    get_byte_bit (set_byte_bit b r w) k == (if r == k then w else get_byte_bit b k))
                  8)
              2)
          s hs (passes-lt write_test b hb write_table))))

-- the distance is that from the other end of the byte
xor_table : passes (λ r. bit_xor 7 r == 7 - r) 8 ≡ true
unfolding passes
xor_table = refl

shift_lem : (i : ℕ) → shift i ≡ 7 - i % 8
unfolding shift
shift_lem i =
    ap (bit_xor 7) (bit_and-7 i)
    ∙ ==_true _ _ (passes-lt (λ r. bit_xor 7 r == 7 - r) (i % 8) (omega arith) xor_table)

pub get_or-set :
    (a : List ℕ) (i j v : ℕ)
    → i < length a
    → get_or (set a i v) j 0 ≡ (if i == j then v else get_or a j 0)
get_or-set [] i j v h = absurd (omega arith)
get_or-set (x ∷ a) zero zero v h = refl
get_or-set (x ∷ a) zero (suc j) v h = ground arith
get_or-set (x ∷ a) (suc i) zero v h = ground arith
get_or-set (x ∷ a) (suc i) (suc j) v h = ground (arith, get_or-set a i j v)

length-set : (a : List ℕ) (place v : ℕ) → length (set a place v) ≡ length a
length-set [] place v = refl
length-set (x ∷ a) zero v = refl
length-set (x ∷ a) (suc place) v = ap suc (length-set a place v)

bit_at-with_bit :
    (a : List ℕ) (i j v : ℕ)
    → ((k : ℕ) → get_or a k 0 < 256)
    → i < 8 * length a
    → v < 2
    → bit_at (with_bit a i v) j ≡ (if i == j then v else bit_at a j)
unfolding bit_at with_bit
bit_at-with_bit a i j v bytes inside bit = ground (
  arith,
  get_or-set a (i / 8) (j / 8) (set_byte_bit (get_or a (i / 8) 0) (shift i) v),
  byte_bit (get_or a (i / 8) 0) (shift i) v (shift j) (bytes (i / 8)),
  shift_lem i,
  shift_lem j,
)

length-with_bit : (a : List ℕ) (i v : ℕ) → length (with_bit a i v) ≡ length a
unfolding with_bit
length-with_bit a i v = length-set a (i / 8) (set_byte_bit (get_or a (i / 8) 0) (shift i) v)

-- A bit that is written is read back, and no other bit of the array changes; a read beyond the array
-- stays one. The array holds bytes, the place is in it, and what is written is a bit.
pub get_bit-set_bit :
    (a : List ℕ) (i j v : ℕ)
    → ((k : ℕ) → get_or a k 0 < 256)
    → i < 8 * length a
    → v < 2
    → (b : List ℕ) × (set_bit a i v ≡ some b)
      × (get_bit b j ≡ (if i == j then some v else get_bit a j))
unfolding get_bit set_bit
get_bit-set_bit a i j v bytes inside bit = (
  with_bit a i v,
  ground arith,
  ground (arith, bit_at-with_bit a i j v bytes inside bit, length-with_bit a i v),
)
