-- ===== src/Legacy/Queue/Refine.antt =====
-- Any history of calls on the ring answers as a bounded queue does.
use usbsec.Base.{
  ℕ, ◌+◌, ◌-◌, ◌%◌, ◌≡◌, refl, sym, ap, ◌∙◌, true, false, Option, none, some, List, [], ◌∷◌, ◌++◌,
  length, arith, Bool-cases, inl, inr, ◌==◌, subst, if◌then◌else◌,
}
use usbsec.Legacy.Queue.{Ring, q_empty, q_full, q_size, q_get, q_put}
use usbsec.Legacy.Queue.Fifo.{
  IsValid, contents, put_state, got_state, put_state-IsValid, got_state-IsValid, q_full-contents,
  q_empty-contents, contents-put_state, contents-got_state, length-contents, mod-gap,
}

pub data Call {ℓ} (E : Type ℓ) : Type ℓ where
  puts : E → Call E
  gets : Call E

-- `got` has the element that the returned pointer points to, or `none` for `NULL`; a `q_put` that
-- `waits` has changed nothing yet.
pub data Answer {ℓ} (E : Type ℓ) : Type ℓ where
  stored waits : Answer E
  got : Option E → Answer E

module _ {ℓ} {E : Type ℓ} where
  pub ring_step : Ring E → Call E → Answer E × Ring E
  unfolding q_put q_get
  ring_step q (puts e) = elim (q_put q e) [ none ↦ (waits, q) | some (i, q') ↦ (stored, q') ]
  ring_step q gets =
      let (found, q') = q_get q in
      (elim found [ none ↦ got none | some i ↦ got (some (q.loc i)) ], q')

  -- A queue as a list, oldest first, that has room for `bound` elements.
  unfoldable pub fifo_step : ℕ → List E → Call E → Answer E × List E
  fifo_step bound l (puts e) = if length l == bound then (waits, l) else (stored, l ++ (e ∷ []))
  fifo_step bound [] gets = (got none, [])
  fifo_step bound (x ∷ l) gets = (got (some x), l)

  pub ring_answers : Ring E → List (Call E) → List (Answer E)
  ring_answers q [] = []
  ring_answers q (c ∷ cs) = let (a, q') = ring_step q c in a ∷ ring_answers q' cs

  unfoldable pub fifo_answers : ℕ → List E → List (Call E) → List (Answer E)
  fifo_answers bound l [] = []
  fifo_answers bound l (c ∷ cs) = let (a, l') = fifo_step bound l c in a ∷ fifo_answers bound l' cs

  pub ring_put-full : (q : Ring E) (e : E) → q_full q ≡ true → ring_step q (puts e) ≡ (waits, q)
  unfolding ring_step q_put
  ring_put-full q e full = ground (arith, full)

  pub ring_put-room :
      (q : Ring E) (e : E) → q_full q ≡ false → ring_step q (puts e) ≡ (stored, put_state q e)
  unfolding ring_step q_put
  ring_put-room q e room = ground (arith, room)

  ring_get-empty : (q : Ring E) → q_empty q ≡ true → ring_step q gets ≡ (got none, q)
  unfolding ring_step q_get
  ring_get-empty q empty = ground (arith, empty)

  ring_get-some :
      (q : Ring E)
      → q_empty q ≡ false
      → ring_step q gets ≡ (got (some (q.loc q.begin)), got_state q)
  unfolding ring_step q_get
  ring_get-some q some_left = ground (arith, some_left)

  fifo_put-full :
      (bound : ℕ) (l : List E) (e : E)
      → (length l == bound) ≡ true
      → fifo_step bound l (puts e) ≡ (waits, l)
  unfolding fifo_step
  fifo_put-full bound l e h = rw h

  fifo_put-room :
      (bound : ℕ) (l : List E) (e : E)
      → (length l == bound) ≡ false
      → fifo_step bound l (puts e) ≡ (stored, l ++ (e ∷ []))
  unfolding fifo_step
  fifo_put-room bound l e h = rw h

  fifo_get-none : (bound : ℕ) (l : List E) → l ≡ [] → fifo_step bound l gets ≡ (got none, l)
  unfolding fifo_step
  fifo_get-none bound [] h = refl
  fifo_get-none bound (x ∷ l) h = cc

  fifo_get-some :
      (bound : ℕ) (l rest : List E) (x : E)
      → l ≡ x ∷ rest
      → fifo_step bound l gets ≡ (got (some x), rest)
  unfolding fifo_step
  fifo_get-some bound [] rest x h = cc
  fifo_get-some bound (y ∷ l) rest x h = ground arith

  -- one call keeps the ring valid and does to the contents what it does to the list
  abbrev Simulates : Ring E → Call E → Answer E × Ring E → Type ℓ
  Simulates q c (a, q') =
      IsValid q'
      × (q'.capacity ≡ q.capacity)
      × ((a, contents q') ≡ fifo_step (q.capacity - 1) (contents q) c)

  step_put : (q : Ring E) (e : E) → IsValid q → Simulates q (puts e) (ring_step q (puts e))
  step_put q e v = elim (Bool-cases (length (contents q) + 1 == q.capacity)) [
    | inl full ↦
        subst (Simulates q (puts e)) (sym (ring_put-full q e (q_full-contents q v ∙ full)))
          (v, refl, sym (fifo_put-full (q.capacity - 1) (contents q) e (ground arith)))
    | inr room ↦
        subst (Simulates q (puts e)) (sym (ring_put-room q e (q_full-contents q v ∙ room))) (
          put_state-IsValid q e v,
          refl,
          ap (λ l. (stored, l)) (contents-put_state q e v (ground arith))
              ∙ sym (fifo_put-room (q.capacity - 1) (contents q) e (ground (arith, v.begin_in))),
        )
  ]

  empty_list : (l : List E) → (length l == 0) ≡ true → l ≡ []
  empty_list [] h = refl
  empty_list (x ∷ l) h = absurd (ground arith)

  step_get : (q : Ring E) → IsValid q → Simulates q gets (ring_step q gets)
  step_get q v = elim (Bool-cases (length (contents q) == 0)) [
    | inl empty ↦
        subst (Simulates q gets) (sym (ring_get-empty q (q_empty-contents q v ∙ empty))) (
          v,
          refl,
          sym (fifo_get-none (q.capacity - 1) (contents q) (empty_list (contents q) empty)),
        )
    | inr some_left ↦
        subst (Simulates q gets) (sym (ring_get-some q (q_empty-contents q v ∙ some_left))) (
          got_state-IsValid q v,
          refl,
          sym (
              fifo_get-some (q.capacity - 1) (contents q) (contents (got_state q)) (q.loc q.begin)
                (contents-got_state q v (ground (arith, length-contents q)))),
        )
  ]

  step-Simulates : (q : Ring E) (c : Call E) → IsValid q → Simulates q c (ring_step q c)
  step-Simulates q (puts e) v = step_put q e v
  step-Simulates q gets v = step_get q v

  -- A valid ring answers any history of calls as a first-in first-out queue does that holds its
  -- contents and has room for one element less than the ring has slots: the same elements come out
  -- in the same order, `NULL` comes exactly when the queue is empty, and a `q_put` waits exactly
  -- when it is full.
  pub ring_answers_lem :
      (q : Ring E) (cs : List (Call E))
      → IsValid q
      → ring_answers q cs ≡ fifo_answers (q.capacity - 1) (contents q) cs
  unfolding ring_answers fifo_answers
  ring_answers_lem q [] v = refl
  ring_answers_lem q (c ∷ cs) v =
      let (valid, same, sim) = step-Simulates q c v in
      ap (λ r. (ring_step q c).0 ∷ r)
        (ring_answers_lem (ring_step q c).1 cs valid
          ∙ ap (λ k. fifo_answers (k - 1) (contents (ring_step q c).1) cs) same)
      ∙ ap (λ r. r.0 ∷ fifo_answers (q.capacity - 1) r.1 cs) sim

  -- `q_size` counts the contents of a ring of at most 256 slots; in a larger ring its eight bits
  -- are the count modulo 256.
  pub q_size_lem : (q : Ring E) → IsValid q → q_size q ≡ length (contents q) % 256
  unfolding q_size
  q_size_lem q v = omega (
    arith,
    mod-gap q.capacity q.begin q.end v.begin_in v.end_in,
    length-contents q,
    ap (λ k. k % 256) (mod-gap q.capacity q.begin q.end v.begin_in v.end_in),
  )
