-- ===== src/Legacy/Queue/Fifo.antt =====
-- The ring is a queue: first in, first out, with room for one element less than it has slots.
use usbsec.Base.{
  ℕ, zero, suc, ◌+◌, ◌-◌, ◌%◌, ◌^◌, ◌≤◌, ◌<◌, ◌≢◌, ◌≡◌, refl, sym, ap, ◌∙◌, List, [], ◌∷◌, ◌++◌,
  length, arith, Bool-cases, inl, inr, ◌==◌, ==_true, if◌then◌else◌, leb, subst,
}
use native.Mathlib.Nat.{mod-eq_of_lt, mod-eq-sub-mod, mod_self}
use usbsec.Legacy.Queue.{Ring, q_empty, q_full, q_next}

-- one place on
abbrev pub next : ℕ → ℕ → ℕ
next size i = if i + 1 == size then 0 else i + 1

-- `%` by the capacity is the step to the next place
pub mod-next : (size i : ℕ) → i < size → (i + 1) % size ≡ next size i
mod-next size i h = elim (Bool-cases (i + 1 == size)) [
  | inl e ↦ rw e (subst (λ k. k % size ≡ 0) (sym (==_true (i + 1) size e)) (mod_self size))
  | inr ne ↦ rw ne (mod-eq_of_lt (ground arith))
]

next-lt : (size i : ℕ) → i < size → next size i < size
next-lt size i h = ground arith

-- how many steps lead from place `i` to place `j`
abbrev pub gap : ℕ → ℕ → ℕ → ℕ
gap size i j = if leb i j then j - i else j + size - i

gap-next :
    (size i j : ℕ) → i < size → j < size → i ≢ j → gap size (next size i) j + 1 ≡ gap size i j
gap-next size i j hi hj ne = ground arith

gap-full :
    (size i j : ℕ)
    → i < size
    → j < size
    → (next size j ≡ i → gap size i j + 1 ≡ size)
      × (next size j ≢ i → gap size i (next size j) ≡ gap size i j + 1)
gap-full size i j hi hj = (λ e. ground arith, λ ne. ground arith)

pub mod-gap : (size i j : ℕ) → i < size → j < size → (j + size - i) % size ≡ gap size i j
mod-gap size i j hi hj = elim (Bool-cases (leb i j)) [
  | inl le ↦ grind (arith, mod-eq_of_lt, mod-eq-sub-mod)
  | inr gt ↦ grind (arith, mod-eq_of_lt)
]

module _ {ℓ} {E : Type ℓ} where
  -- `count` elements from place `i` on
  abbrev pub slots : (ℕ → E) → ℕ → ℕ → ℕ → List E
  slots loc size zero i = []
  slots loc size (suc count) i = loc i ∷ slots loc size count (next size i)

  abbrev pub contents : Ring E → List E
  contents q = slots q.loc q.capacity (gap q.capacity q.begin q.end) q.begin

  length-slots : (loc : ℕ → E) (size count i : ℕ) → length (slots loc size count i) ≡ count
  length-slots loc size zero i = refl
  length-slots loc size (suc count) i = ap suc (length-slots loc size count (next size i))

  slots-update :
      (loc : ℕ → E) (size count i j : ℕ) (e : E)
      → i < size
      → j < size
      → count ≤ gap size i j
      → slots (λ k. if k == j then e else loc k) size count i ≡ slots loc size count i
  slots-update loc size zero i j e hi hj h = refl
  slots-update loc size (suc count) i j e hi hj h =
      let ne : i ≢ j = ground arith in
      ground (
        arith,
        slots-update loc size count (next size i) j e (next-lt size i hi) hj
            (ground (arith, gap-next size i j hi hj ne)),
      )

  slots-snoc :
      (loc : ℕ → E) (size count i j : ℕ)
      → i < size
      → j < size
      → count ≡ gap size i j
      → slots loc size (suc count) i ≡ slots loc size count i ++ (loc j ∷ [])
  slots-snoc loc size zero i j hi hj h = let e : i ≡ j = ground arith in ap (λ k. loc k ∷ []) e
  slots-snoc loc size (suc count) i j hi hj h =
      let ne : i ≢ j = ground arith in
      ap (λ r. loc i ∷ r)
        (slots-snoc loc size count (next size i) j (next-lt size i hi) hj
          (ground (arith, gap-next size i j hi hj ne)))

module _ {ℓ} {E : Type ℓ} where
  -- Both ends are slots, and the capacity has 16 bits.
  pub record IsValid (q : Ring E) : Type ℓ where
    pub begin_in : q.begin < q.capacity
    pub end_in : q.end < q.capacity
    pub small : q.capacity < 65536

  pub length-contents : (q : Ring E) → length (contents q) ≡ gap q.capacity q.begin q.end
  length-contents q = length-slots q.loc q.capacity (gap q.capacity q.begin q.end) q.begin

  -- `q_full` and `q_empty` in terms of the contents.
  pub q_full-contents :
      (q : Ring E) → IsValid q → q_full q ≡ (length (contents q) + 1 == q.capacity)
  unfolding q_full
  q_full-contents q v = ground (
    arith,
    length-contents q,
    mod-next q.capacity q.end v.end_in,
    gap-full q.capacity q.begin q.end v.begin_in v.end_in,
  )

  pub q_empty-contents : (q : Ring E) → IsValid q → q_empty q ≡ (length (contents q) == 0)
  unfolding q_empty
  q_empty-contents q v = ground (arith, length-contents q)

  pub q_next-small :
      (q : Ring E) (i : ℕ) → IsValid q → i < q.capacity → q_next q i % 2 ^ 16 ≡ next q.capacity i
  q_next-small q i v h = ground (arith, mod-next q.capacity i h)

  -- the ring after a `q_put`, and after a `q_get`
  abbrev pub put_state : Ring E → E → Ring E
  put_state q e = record q {
    loc = λ i. if i == q.end then e else q.loc i;
    end = q_next q q.end % 2 ^ 16;
  }

  abbrev pub got_state : Ring E → Ring E
  got_state q = record q { begin = q_next q q.begin % 2 ^ 16 }

  pub put_state-IsValid : (q : Ring E) (e : E) → IsValid q → IsValid (put_state q e)
  put_state-IsValid q e v = record {
    begin_in = v.begin_in;
    end_in = ground (arith, q_next-small q q.end v v.end_in);
    small = v.small;
  }

  pub got_state-IsValid : (q : Ring E) → IsValid q → IsValid (got_state q)
  got_state-IsValid q v = record {
    begin_in = ground (arith, q_next-small q q.begin v v.begin_in);
    end_in = v.end_in;
    small = v.small;
  }

  pub contents-put_state :
      (q : Ring E) (e : E)
      → IsValid q
      → length (contents q) + 1 ≢ q.capacity
      → contents (put_state q e) ≡ contents q ++ (e ∷ [])
  contents-put_state q e v room =
      ap (λ k. slots loc' q.capacity k q.begin) longer
      ∙ slots-snoc loc' q.capacity (gap q.capacity q.begin q.end) q.begin q.end v.begin_in v.end_in
          refl
      ∙ ap (λ r. r ++ (loc' q.end ∷ [])) same
      ∙ ap (λ x. contents q ++ (x ∷ [])) here
    where
      loc' : ℕ → E
      loc' = (put_state q e).loc

      longer : gap q.capacity q.begin (q_next q q.end % 2 ^ 16) ≡ suc (gap q.capacity q.begin q.end)
      longer = ground (
        arith,
        q_next-small q q.end v v.end_in,
        gap-full q.capacity q.begin q.end v.begin_in v.end_in,
        length-contents q,
      )

      same : slots loc' q.capacity (gap q.capacity q.begin q.end) q.begin ≡ contents q
      same =
          slots-update q.loc q.capacity (gap q.capacity q.begin q.end) q.begin q.end e v.begin_in
            v.end_in (omega arith)

      here : loc' q.end ≡ e
      here = ground arith

  pub contents-got_state :
      (q : Ring E)
      → IsValid q
      → q.begin ≢ q.end
      → contents q ≡ q.loc q.begin ∷ contents (got_state q)
  contents-got_state q v some_left =
      ap (λ k. slots q.loc q.capacity k q.begin) shorter
      ∙ ap (λ b. q.loc q.begin ∷ slots q.loc q.capacity (gap q.capacity b q.end) b)
          (sym (q_next-small q q.begin v v.begin_in))
    where
      shorter : gap q.capacity q.begin q.end ≡ suc (gap q.capacity (next q.capacity q.begin) q.end)
      shorter = omega (arith, gap-next q.capacity q.begin q.end v.begin_in v.end_in some_left)
