-- ===== src/Base/Bits.antt =====
-- Flag words: tests on bits, and checking a fact about small numbers by evaluation.
mod Masks
mod Step
pub use Masks.{bit_and-0, bit_and-1, bit_and-3, bit_and-7}
pub use Step.{bit_or-0, bit_and_assoc, cleared_bit, bit_or_outside}
use Prim.Native.Nat.{ℕ, zero, suc, ◌<◌, bit_and}
use mathlib.Core.Path.{◌≡◌}
use mathlib.Core.Bool.{Bool, true, ◌&&◌}
use native.Mathlib.Omega.{arith}
use usbsec.Base.Tests.{◌!=◌}

-- `a & m` as a condition of C.
abbrev pub has : ℕ → ℕ → Bool
has a m = bit_and a m != 0

-- A test passes on every number up to, and not with, a bound.
unfoldable pub passes : (ℕ → Bool) → ℕ → Bool
passes test zero = true
passes test (suc bound) = passes test bound && test bound

pub passes-lt :
    (test : ℕ → Bool) {bound : ℕ} (k : ℕ) → k < bound → passes test bound ≡ true → test k ≡ true
unfolding passes
passes-lt test {bound = zero} k small all = absurd (omega arith)
passes-lt test {bound = suc bound} k small all = ground (arith, passes-lt test {bound = bound} k)
