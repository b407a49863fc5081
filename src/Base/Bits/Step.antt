-- ===== src/Base/Bits/Step.antt =====
-- `&` and `|` by their lowest digit, and a bit that a mask has cleared.
use Prim.Native.Nat.{
  ℕ, zero, suc, ◌+◌, ◌-◌, ◌*◌, ◌/◌, ◌%◌, ◌≤◌, min, max, bit_and, bit_or, digits, bit_and-bitwise,
  bit_or-bitwise,
}
use mathlib.Core.Path.{◌≡◌, refl, ap, sym, ◌∙◌}
use native.Mathlib.Omega.{arith}
use usbsec.Base.Bits.Masks.{bit_and-0}

-- Once the fuel is enough, one more unit of it changes nothing, and so `spare` more do not either.
module _ (z : ℕ → ℕ) (f : ℕ → ℕ → ℕ) where
  one_spare : (b a n : ℕ) → a ≤ n → digits z f (suc n) a b ≡ digits z f n a b
  one_spare b zero zero le = refl
  one_spare b zero (suc n) le = refl
  one_spare b (suc a) zero le = absurd (omega arith)
  one_spare b (suc a) (suc n) le = omega (arith, one_spare (b / 2) (suc a / 2) n (omega arith))

  all_spare : (b a n spare : ℕ) → a ≤ n → digits z f (spare + n) a b ≡ digits z f n a b
  all_spare b a n zero le =
      let none : zero + n ≡ n = omega arith in ap (λ fuel. digits z f fuel a b) none
  all_spare b a n (suc spare) le =
      let one : suc spare + n ≡ suc (spare + n) = omega arith in
      ap (λ fuel. digits z f fuel a b) one
      ∙ (one_spare b a (spare + n) (omega arith) ∙ all_spare b a n spare le)

  lowest_digit :
      (a b : ℕ)
      → let half = suc a / 2 in
        digits z f (suc a) (suc a) b ≡ digits z f half half (b / 2) * 2 + f (suc a % 2) (b % 2)
  lowest_digit a b =
      let half : ℕ = suc a / 2 in
      let all : (a - half) + half ≡ a = omega arith in
      omega (
        arith,
        ap (λ fuel. digits z f fuel half (b / 2)) all,
        all_spare (b / 2) half half (a - half) (omega arith),
      )

pub bit_or-0 : (b : ℕ) → bit_or 0 b ≡ b
bit_or-0 b = bit_or-bitwise 0 b

pub bit_and_step : (x m : ℕ) → min (x % 2) (m % 2) + 2 * bit_and (x / 2) (m / 2) ≡ bit_and x m
bit_and_step zero b = omega (arith, bit_and-bitwise 0 (b / 2), bit_and-bitwise 0 b)
bit_and_step (suc a) b =
    let halves = bit_and-bitwise (suc a / 2) (b / 2) in
    omega (arith, lowest_digit (λ k. zero) min a b, halves, bit_and-bitwise (suc a) b)

pub bit_or_step : (x s : ℕ) → max (x % 2) (s % 2) + 2 * bit_or (x / 2) (s / 2) ≡ bit_or x s
bit_or_step zero b = omega (arith, bit_or-0 (b / 2), bit_or-0 b)
bit_or_step (suc a) b =
    let halves = bit_or-bitwise (suc a / 2) (b / 2) in
    omega (arith, lowest_digit (λ k. k) max a b, halves, bit_or-bitwise (suc a) b)

cleared_digits :
    (n x m s d : ℕ)
    → d ≤ n
    → bit_and m d ≡ 0
    → bit_and s d ≡ 0
    → bit_and (bit_or (bit_and x m) s) d ≡ 0
cleared_digits zero x m s zero h p q = bit_and-0 (bit_or (bit_and x m) s)
cleared_digits zero x m s (suc d) h p q = absurd (omega arith)
cleared_digits (suc n) x m s d h p q =
    let y = bit_or (bit_and x m) s in
    let inner : bit_and x m / 2 ≡ bit_and (x / 2) (m / 2) = omega (arith, bit_and_step x m) in
    let half : y / 2 ≡ bit_or (bit_and (x / 2) (m / 2)) (s / 2) =
      omega (arith, bit_or_step (bit_and x m) s) ∙ ap (λ k. bit_or k (s / 2)) inner in
    let rest : bit_and (y / 2) (d / 2) ≡ 0 =
      ap (λ k. bit_and k (d / 2)) half
      ∙ cleared_digits n (x / 2) (m / 2) (s / 2) (d / 2) (omega arith)
          (omega (arith, bit_and_step m d, p)) (omega (arith, bit_and_step s d, q)) in
    omega (
      arith,
      rest,
      bit_and_step y d,
      bit_or_step (bit_and x m) s,
      bit_and_step x m,
      bit_and_step m d,
      bit_and_step s d,
    )

-- A bit that is neither in the mask nor set afterwards is not set.
pub cleared_bit :
    (x m s d : ℕ) → bit_and m d ≡ 0 → bit_and s d ≡ 0 → bit_and (bit_or (bit_and x m) s) d ≡ 0
cleared_bit x m s d = cleared_digits d x m s d (omega arith)

assoc_digits : (n x m d : ℕ) → d ≤ n → bit_and (bit_and x m) d ≡ bit_and x (bit_and m d)
assoc_digits zero x m zero h =
    bit_and-0 (bit_and x m) ∙ (sym (bit_and-0 x) ∙ ap (bit_and x) (sym (bit_and-0 m)))
assoc_digits zero x m (suc d) h = absurd (omega arith)
assoc_digits (suc n) x m d h =
    let left : bit_and x m / 2 ≡ bit_and (x / 2) (m / 2) = omega (arith, bit_and_step x m) in
    let right : bit_and m d / 2 ≡ bit_and (m / 2) (d / 2) = omega (arith, bit_and_step m d) in
    let rest : bit_and (bit_and x m / 2) (d / 2) ≡ bit_and (x / 2) (bit_and m d / 2) =
      ap (λ k. bit_and k (d / 2)) left
      ∙ (assoc_digits n (x / 2) (m / 2) (d / 2) (omega arith) ∙ ap (bit_and (x / 2)) (sym right)) in
    omega (
      arith,
      rest,
      bit_and_step (bit_and x m) d,
      bit_and_step x (bit_and m d),
      bit_and_step x m,
      bit_and_step m d,
    )

pub bit_and_assoc : (x m d : ℕ) → bit_and (bit_and x m) d ≡ bit_and x (bit_and m d)
bit_and_assoc x m d = assoc_digits d x m d (omega arith)

outside_digits : (n a s d : ℕ) → d ≤ n → bit_and s d ≡ 0 → bit_and (bit_or a s) d ≡ bit_and a d
outside_digits zero a s zero h q = bit_and-0 (bit_or a s) ∙ sym (bit_and-0 a)
outside_digits zero a s (suc d) h q = absurd (omega arith)
outside_digits (suc n) a s d h q =
    let half : bit_or a s / 2 ≡ bit_or (a / 2) (s / 2) = omega (arith, bit_or_step a s) in
    let rest : bit_and (bit_or a s / 2) (d / 2) ≡ bit_and (a / 2) (d / 2) =
      ap (λ k. bit_and k (d / 2)) half
      ∙ outside_digits n (a / 2) (s / 2) (d / 2) (omega arith)
          (omega (arith, bit_and_step s d, q)) in
    omega (
      arith,
      rest,
      bit_and_step (bit_or a s) d,
      bit_or_step a s,
      bit_and_step a d,
      bit_and_step s d,
    )

-- Bits that are set outside a mask do not show in it.
pub bit_or_outside : (a s d : ℕ) → bit_and s d ≡ 0 → bit_and (bit_or a s) d ≡ bit_and a d
bit_or_outside a s d = outside_digits d a s d (omega arith)
