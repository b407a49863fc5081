-- ===== src/Node/Memory/Within.antt =====
-- Reading a stretch of bytes in two parts, and writing inside a block.
use usbsec.Base.{
  ℕ, zero, suc, ◌+◌, ◌-◌, ◌≤◌, ◌≢◌, ◌≡◌, refl, ap, ◌∙◌, sym, subst, List, [], ◌∷◌, ◌++◌, Option,
  some, none, inl, inr, Bool-cases, leb, ◌==◌, if◌then◌else◌, drop-append, length, take, drop,
  arith, length-append, length-take, length-drop, take-append, take-take,
}
use usbsec.Node.Sdk.{Store, Pointer, forward}
use usbsec.Node.Memory.{fetch, poke, set_block, splice}
use usbsec.Node.Memory.Stretch.{drop-drop, drop-take, drop-front, append-nothing, append_assoc}
use usbsec.Node.Memory.Copy.{set_block_self, set_block_ne}

-- reading inside a block
pub fetch_in :
    (mem : Store) (p : Pointer) (n : ℕ) (all : List ℕ)
    → mem p.block ≡ some all
    → p.off + n ≤ length all
    → fetch mem p n ≡ some (take n (drop p.off all))
unfolding fetch
fetch_in mem p zero all h l = refl
fetch_in mem p (suc n) all h l = ground arith

-- A read goes by the one block only.
pub fetch_frame :
    (mem mem' : Store) (p : Pointer) (n : ℕ)
    → mem' p.block ≡ mem p.block
    → fetch mem' p n ≡ fetch mem p n
unfolding fetch
fetch_frame mem mem' p n same =
    ap
      (λ (o : Option (List ℕ)). if n == 0 then some [] else (elim o [
        | none ↦ none
        | some bytes ↦
            if leb (p.off + n) (length bytes) then some (take n (drop p.off bytes)) else none
      ]))
      same

-- what a successful read of at least one byte says
fetched_from :
    (mem : Store) (p : Pointer) (n : ℕ) (bytes : List ℕ) (o : Option (List ℕ))
    → mem p.block ≡ o
    → fetch mem p (suc n) ≡ some bytes
    → (all : List ℕ) × (mem p.block ≡ some all)
      × (p.off + suc n ≤ length all)
      × (take (suc n) (drop p.off all) ≡ bytes)
unfolding fetch
fetched_from mem p n bytes none at h = absurd (ground arith)
fetched_from mem p n bytes (some all) at h = elim (Bool-cases (leb (p.off + suc n) (length all))) [
  | inl fits ↦ (all, at, ground arith, ground arith)
  | inr beyond ↦ absurd (ground arith)
]

fetched :
    (mem : Store) (p : Pointer) (n : ℕ) (bytes : List ℕ)
    → fetch mem p (suc n) ≡ some bytes
    → (all : List ℕ) × (mem p.block ≡ some all)
      × (p.off + suc n ≤ length all)
      × (take (suc n) (drop p.off all) ≡ bytes)
fetched mem p n bytes h = fetched_from mem p n bytes (mem p.block) refl h

fetched_nothing :
    (mem : Store) (p : Pointer) (bytes : List ℕ) → fetch mem p 0 ≡ some bytes → bytes ≡ []
unfolding fetch
fetched_nothing mem p bytes h = ground arith

some-injective : (xs ys : List ℕ) → some xs ≡ some ys → xs ≡ ys
some-injective xs ys h = cc

pub fetch-length :
    (mem : Store) (p : Pointer) (n : ℕ) (bytes : List ℕ)
    → fetch mem p n ≡ some bytes
    → length bytes ≡ n
fetch-length mem p zero bytes h = ap length (fetched_nothing mem p bytes h)
fetch-length mem p (suc n) bytes h =
    let (all, at, fits, is) = fetched mem p n bytes h in
    omega (arith, ap length is, length-take (suc n) (drop p.off all), length-drop p.off all)

-- The first `k` bytes of a stretch, and the others.
pub fetch_split :
    (mem : Store) (p : Pointer) (n k : ℕ) (bytes : List ℕ)
    → fetch mem p n ≡ some bytes
    → k ≤ n
    → (fetch mem p k ≡ some (take k bytes))
      × (fetch mem (forward p k) (n - k) ≡ some (drop k bytes))
unfolding fetch
fetch_split mem p zero zero bytes h le = (refl, h)
fetch_split mem p zero (suc k) bytes h le = absurd (omega arith)
fetch_split mem p (suc n) k bytes h le =
    let (all, at, fits, is) = fetched mem p n bytes h in
    (
      fetch_in mem p k all at (omega arith)
          ∙ ap some (sym (take-take k (suc n) (drop p.off all) le) ∙ ap (take k) is),
      fetch_in mem (forward p k) (suc n - k) all at (omega arith)
          ∙ ap some (
              ap (take (suc n - k)) (sym (drop-drop p.off k all))
              ∙ (sym (drop-take k (suc n) (drop p.off all)) ∙ ap (drop k) is)),
    )

splice-front :
    (old bs : List ℕ) (off : ℕ)
    → off + length bs ≤ length old
    → take (length bs) (drop off (splice old off bs)) ≡ bs
splice-front old bs off l =
    let rest = bs ++ drop (off + length bs) old in
    let front : length (take off old) ≡ off = omega (arith, length-take off old) in
    ap (λ k. take (length bs) (drop k (take off old ++ rest))) (sym front)
    ∙ (ap (take (length bs)) (drop-append (take off old) rest)
        ∙ take-append bs (drop (off + length bs) old))

length-splice :
    (old bs : List ℕ) (off : ℕ)
    → off + length bs ≤ length old
    → length (splice old off bs) ≡ length old
length-splice old bs off l = omega (
  arith,
  length-append (take off old) (bs ++ drop (off + length bs) old),
  length-append bs (drop (off + length bs) old),
  length-take off old,
  length-drop (off + length bs) old,
)

-- Writing inside a block, and reading it back.
pub poke_within :
    (mem : Store) (p : Pointer) (old bs : List ℕ)
    → mem p.block ≡ some old
    → p.off + length bs ≤ length old
    → (mem' : Store) × (poke mem p bs ≡ some mem')
      × (fetch mem' p (length bs) ≡ some bs)
      × ((k : ℕ) → k ≢ p.block → mem' k ≡ mem k)
      × ((new : List ℕ) × (mem' p.block ≡ some new) × (length new ≡ length old))
unfolding poke fetch
poke_within mem p old [] h l = (mem, refl, refl, λ k ne. refl, (old, h, refl))
poke_within mem p old (x ∷ bs) h l =
    let new = splice old p.off (x ∷ bs) in
    let mem' = set_block mem p.block (some new) in
    let at : mem' p.block ≡ some new = set_block_self mem p.block (some new) in
    let size = length-splice old (x ∷ bs) p.off l in
    (
      mem',
      ground arith,
      fetch_in mem' p (suc (length bs)) new at (omega (arith, size))
          ∙ ap some (splice-front old (x ∷ bs) p.off l),
      (λ k ne. set_block_ne mem p.block k (some new) ne),
      (new, at, size),
    )

-- what a stretch holds when bytes were written behind it
splice-behind :
    (old got bs : List ℕ) (off : ℕ)
    → off + length got + length bs ≤ length old
    → take (length got) (drop off old) ≡ got
    → take (length (got ++ bs)) (drop off (splice old (off + length got) bs)) ≡ got ++ bs
splice-behind old got bs off l is =
    let g : ℕ = length got in
    let rest : List ℕ = drop (off + g + length bs) old in
    let front : length (take (off + g) old) ≡ off + g = omega (arith, length-take (off + g) old) in
    let width : off + g - off ≡ g = omega arith in
    let kept : drop off (take (off + g) old) ≡ got =
      drop-take off (off + g) old ∙ (ap (λ k. take k (drop off old)) width ∙ is) in
    let all : drop off (splice old (off + g) bs) ≡ (got ++ bs) ++ rest =
      drop-front off (take (off + g) old) (bs ++ rest) (omega (arith, front))
      ∙ (ap (λ xs. xs ++ (bs ++ rest)) kept ∙ sym (append_assoc got bs rest)) in
    ap (take (length (got ++ bs))) all ∙ take-append (got ++ bs) rest

-- Writing behind what a stretch of a block holds.
pub poke_behind :
    (mem : Store) (p : Pointer) (old got bs : List ℕ)
    → mem p.block ≡ some old
    → p.off + length got + length bs ≤ length old
    → fetch mem p (length got) ≡ some got
    → (mem' : Store) × (poke mem (forward p (length got)) bs ≡ some mem')
      × (fetch mem' p (length (got ++ bs)) ≡ some (got ++ bs))
      × ((k : ℕ) → k ≢ p.block → mem' k ≡ mem k)
      × ((new : List ℕ) × (mem' p.block ≡ some new) × (length new ≡ length old))
unfolding poke
poke_behind mem p old got [] h l is =
    let none : got ++ [] ≡ got = append-nothing got in
    (
      mem,
      refl,
      subst (λ bytes. fetch mem p (length bytes) ≡ some bytes) (sym none) is,
      (λ k ne. refl),
      (old, h, refl),
    )
poke_behind mem p old got (x ∷ bs) h l is =
    let q : Pointer = forward p (length got) in
    let new : List ℕ = splice old q.off (x ∷ bs) in
    let mem' : Store = set_block mem p.block (some new) in
    let at : mem' p.block ≡ some new = set_block_self mem p.block (some new) in
    let size : length new ≡ length old = length-splice old (x ∷ bs) q.off l in
    let bytes : List ℕ = got ++ (x ∷ bs) in
    let whole : take (length got) (drop p.off old) ≡ got =
      some-injective (take (length got) (drop p.off old)) got
        (sym (fetch_in mem p (length got) old h (omega arith)) ∙ is) in
    (
      mem',
      ground arith,
      fetch_in mem' p (length bytes) new at (omega (arith, size, length-append got (x ∷ bs)))
          ∙ ap some (splice-behind old got (x ∷ bs) p.off l whole),
      (λ k ne. set_block_ne mem p.block k (some new) ne),
      (new, at, size),
    )
