-- ===== src/Drivers/Index.antt =====
-- The index of an endpoint in the arrays of drivers.c.
use usbsec.Base.{
  ℕ, ◌+◌, ◌%◌, ◌≤◌, ◌<◌, ◌≡◌, refl, Bool, true, ◌||◌, ◌&&◌, not, ◌==◌, leb, ltb, if◌then◌else◌,
  arith, passes, passes-lt,
}
use usbsec.Drivers.{idx}

-- A byte whose reserved bits (4 to 6) are clear, as the USB standard wants of an endpoint address.
abbrev pub IsEndpointAddress : ℕ → Type 0
IsEndpointAddress a = (a < 256) × (a % 128 < 16)

in_range : ℕ → Bool
in_range a = not (ltb (a % 128) 16) || (idx a == a % 128 + (if leb 128 a then 16 else 0))

in_range_table : passes in_range 256 ≡ true
unfolding passes in_range idx
in_range_table = refl

pub idx-eq : (a : ℕ) → IsEndpointAddress a → idx a ≡ a % 128 + (if leb 128 a then 16 else 0)
unfolding in_range
idx-eq a h = ground (arith, passes-lt in_range a h.0 in_range_table)

-- Two endpoint addresses of the standard have places of their own, within the arrays of 32.
pub idx_injective :
    (a b : ℕ) → IsEndpointAddress a → IsEndpointAddress b → (idx a < 32) × (idx a ≡ idx b → a ≡ b)
idx_injective a b ha hb =
    (ground (arith, idx-eq a ha), λ e. ground (arith, idx-eq a ha, idx-eq b hb))

collides : ℕ → Bool
collides a = not (leb 16 a && ltb a 32) || (idx a == idx (a + 112))

collides_table : passes collides 256 ≡ true
unfolding passes collides idx
collides_table = refl

-- An address that has reserved bit 4 set, and is below 32, takes the place of an IN endpoint.
pub idx_collision : (a : ℕ) → 16 ≤ a → a < 32 → idx a ≡ idx (a + 112)
unfolding collides
idx_collision a h k =
    ground (arith, passes-lt collides {bound = 256} a (omega arith) collides_table)
