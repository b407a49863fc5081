-- ===== src/Node/Memory/Copy.antt =====
-- What copying does to memory: reading back what was written, and filling a new block.
use usbsec.Base.{
  ℕ, zero, suc, ◌≤◌, ◌≢◌, ◌≡◌, refl, fun_ext, List, [], ◌∷◌, ◌++◌, some, length, drop, replicate,
  arith, length-append, take-append, take-length, length-drop, length-replicate, append-nil, Option,
  ==_refl,
}
use usbsec.Node.Sdk.{Store, Pointer}
use usbsec.Node.Memory.{fetch, poke, set_block}

drop-replicate : (n : ℕ) (a : ℕ) → drop n (replicate n a) ≡ []
drop-replicate zero a = refl
drop-replicate (suc n) a = drop-replicate n a

pub set_block-set_block :
    (mem : Store) (b : ℕ) (v w : Option (List ℕ))
    → set_block (set_block mem b v) b w ≡ set_block mem b w
set_block-set_block mem b v w = fun_ext λ k. ground arith

pub set_block_self : (mem : Store) (b : ℕ) (v : Option (List ℕ)) → set_block mem b v b ≡ v
set_block_self mem b v = rw (==_refl b)

pub set_block_ne :
    (mem : Store) (b k : ℕ) (v : Option (List ℕ)) → k ≢ b → set_block mem b v k ≡ mem k
set_block_ne mem b k v h = ground arith

-- a whole block
pub fetch_whole :
    (mem : Store) (b : ℕ) (bs : List ℕ)
    → mem b ≡ some bs
    → fetch mem (record { block = b; off = 0 }) (length bs) ≡ some bs
unfolding fetch
fetch_whole mem b [] h = refl
fetch_whole mem b (x ∷ bs) h = ground (arith, take-length (x ∷ bs))

pub fetch_other :
    (mem : Store) (p : Pointer) (n b : ℕ) (v : Option (List ℕ))
    → p.block ≢ b
    → fetch (set_block mem b v) p n ≡ fetch mem p n
unfolding fetch
fetch_other mem p n b v h = ground (arith, set_block_ne mem b p.block v h)

-- filling a new block
pub poke_fresh :
    (mem : Store) (b : ℕ) (bs : List ℕ)
    → poke (set_block mem b (some (replicate (length bs) 0))) (record { block = b; off = 0 }) bs
      ≡ some (set_block mem b (some bs))
unfolding poke
poke_fresh mem b [] = refl
poke_fresh mem b (x ∷ bs) = ground (
  arith,
  set_block_self mem b (some (replicate (length (x ∷ bs)) 0)),
  length-replicate {A = ℕ} (length bs) 0,
  drop-replicate (length bs) 0,
  append-nil bs,
  set_block-set_block mem b (some (replicate (length (x ∷ bs)) 0)) (some (x ∷ bs)),
)

-- Writing to the front of a block that is large enough, and reading it back.
pub poke_front :
    (mem : Store) (b : ℕ) (old bs : List ℕ)
    → mem b ≡ some old
    → length bs ≤ length old
    → (mem' : Store) × (poke mem (record { block = b; off = 0 }) bs ≡ some mem')
      × (fetch mem' (record { block = b; off = 0 }) (length bs) ≡ some bs)
      × ((k : ℕ) → k ≢ b → mem' k ≡ mem k)
      × ((new : List ℕ) × (mem' b ≡ some new) × (length new ≡ length old))
unfolding poke fetch
poke_front mem b old [] h l = (mem, refl, refl, λ k ne. refl, (old, h, refl))
poke_front mem b old (x ∷ bs) h l = (
  set_block mem b (some new),
  ground arith,
  ground (arith, set_block_self mem b (some new), length-append (x ∷ bs) rest, take-append bs rest),
  λ k ne. set_block_ne mem b k (some new) ne,
  (
    new,
    set_block_self mem b (some new),
    omega (arith, length-append (x ∷ bs) rest, length-drop (length (x ∷ bs)) old),
  ),
)
  where
    rest : List ℕ
    rest = drop (length (x ∷ bs)) old

    new : List ℕ
    new = (x ∷ bs) ++ rest
