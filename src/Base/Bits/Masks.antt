-- ===== src/Base/Bits/Masks.antt =====
-- `a & m` for the masks 1, 3 and 7, as a remainder.
use Prim.Native.Nat.{ℕ, zero, suc, ◌/◌, ◌%◌, ◌≤◌, min, bit_and, digits, bit_and-bitwise}
use mathlib.Core.Path.{◌≡◌, refl, ◌∙◌}
use native.Mathlib.Omega.{arith}

-- the common digits of `a` and `m`, with the count of digits as an argument
abbrev common : ℕ → ℕ → ℕ → ℕ
common n a m = digits (λ b. zero) min n a m

common-0 : (n a : ℕ) → common n a 0 ≡ 0
common-0 zero a = refl
common-0 (suc n) zero = refl
common-0 (suc n) (suc a) = omega (arith, common-0 n (suc a / 2))

common-1 : (n a : ℕ) → a ≤ n → common n a 1 ≡ a % 2
common-1 zero zero h = refl
common-1 zero (suc a) h = absurd (omega arith)
common-1 (suc n) zero h = refl
common-1 (suc n) (suc a) h = omega (arith, common-0 n (suc a / 2))

common-3 : (n a : ℕ) → a ≤ n → common n a 3 ≡ a % 4
common-3 zero zero h = refl
common-3 zero (suc a) h = absurd (omega arith)
common-3 (suc n) zero h = refl
common-3 (suc n) (suc a) h = omega (arith, common-1 n (suc a / 2) (omega arith))

common-7 : (n a : ℕ) → a ≤ n → common n a 7 ≡ a % 8
common-7 zero zero h = refl
common-7 zero (suc a) h = absurd (omega arith)
common-7 (suc n) zero h = refl
common-7 (suc n) (suc a) h = omega (arith, common-3 n (suc a / 2) (omega arith))

pub bit_and-1 : (a : ℕ) → bit_and a 1 ≡ a % 2
bit_and-1 a = bit_and-bitwise a 1 ∙ common-1 a a (omega arith)

pub bit_and-3 : (a : ℕ) → bit_and a 3 ≡ a % 4
bit_and-3 a = bit_and-bitwise a 3 ∙ common-3 a a (omega arith)

pub bit_and-7 : (a : ℕ) → bit_and a 7 ≡ a % 8
bit_and-7 a = bit_and-bitwise a 7 ∙ common-7 a a (omega arith)

pub bit_and-0 : (a : ℕ) → bit_and a 0 ≡ 0
bit_and-0 a = bit_and-bitwise a 0 ∙ common-0 a a
