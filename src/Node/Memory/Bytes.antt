-- ===== src/Node/Memory/Bytes.antt =====
-- Single bytes of a block.
use usbsec.Base.{
  ℕ, zero, suc, ◌<◌, ◌≡◌, refl, List, [], ◌∷◌, some, length, take, drop, get_or, arith,
}
use usbsec.Node.Sdk.{Pointer}
use usbsec.Node.State.{Node}
use usbsec.Node.Monad.{ok}
use usbsec.Node.Memory.{fetch, load, load_byte}

get_or-take : (k : ℕ) (xs : List ℕ) → get_or (take 1 (drop k xs)) 0 0 ≡ get_or xs k 0
get_or-take zero [] = refl
get_or-take zero (x ∷ xs) = refl
get_or-take (suc k) [] = refl
get_or-take (suc k) (x ∷ xs) = get_or-take k xs

pub load_byte_lem :
    (p : Pointer) (n : Node) (bytes : List ℕ)
    → n.mem p.block ≡ some bytes
    → p.off < length bytes
    → load_byte p n ≡ (ok (get_or bytes p.off 0), n)
unfolding load_byte load fetch
load_byte_lem p n bytes h small = ground (arith, get_or-take p.off bytes)

pub load_byte-fetched :
    (p : Pointer) (n : Node) (b : ℕ) → fetch n.mem p 1 ≡ some (b ∷ []) → load_byte p n ≡ (ok b, n)
unfolding load_byte load
load_byte-fetched p n b h = ground arith
