-- ===== src/Legacy/Queue/Slots.antt =====
-- How long the element that `q_get` points to stays where it is.
use usbsec.Base.{
  ℕ, ◌<◌, ◌≢◌, ◌≡◌, refl, sym, ap, ◌∙◌, false, some, List, [], ◌∷◌, arith, Bool-cases, inl, inr,
}
use usbsec.Legacy.Queue.{Ring, q_full, q_get}
use usbsec.Legacy.Queue.Fifo.{
  IsValid, next, put_state, got_state, put_state-IsValid, got_state-IsValid, mod-next, q_next-small,
}
use usbsec.Legacy.Queue.Refine.{puts, ring_step, ring_put-full, ring_put-room}

module _ {ℓ} {E : Type ℓ} where
  -- the ring after `q_put` of some elements, those that have to wait left out
  pub after_puts : Ring E → List E → Ring E
  after_puts q [] = q
  after_puts q (e ∷ es) = after_puts (ring_step q (puts e)).1 es

  -- the slot just in front of the contents is not written
  put_elsewhere :
      (q : Ring E) (e : E) (i : ℕ)
      → IsValid q
      → i < q.capacity
      → next q.capacity i ≡ q.begin
      → q_full q ≡ false
      → q.end ≢ i
  unfolding q_full
  put_elsewhere q e i v small before room same = ground (arith, mod-next q.capacity i small)

  slot_kept :
      (q : Ring E) (es : List E) (i : ℕ)
      → IsValid q
      → i < q.capacity
      → next q.capacity i ≡ q.begin
      → (after_puts q es).loc i ≡ q.loc i
  unfolding after_puts
  slot_kept q [] i v small before = refl
  slot_kept q (e ∷ es) i v small before = elim (Bool-cases (q_full q)) [
    | inl full ↦
        ap (λ r. (after_puts r.1 es).loc i) (ring_put-full q e full)
        ∙ slot_kept q es i v small before
    | inr room ↦
        ap (λ r. (after_puts r.1 es).loc i) (ring_put-room q e room)
        ∙ slot_kept (put_state q e) es i (put_state-IsValid q e v) small before
        ∙ ground (arith, put_elsewhere q e i v small before room)
  ]

  q_get-eq_some :
      (q q' : Ring E) (i : ℕ) → q_get q ≡ (some i, q') → (i ≡ q.begin) × (q' ≡ got_state q)
  unfolding q_get
  q_get-eq_some q q' i h = ground arith

  -- The element that `q_get` points to keeps its value through any number of `q_put`s, until the
  -- next `q_get`: none of them writes its slot.
  pub q_get-after_puts :
      (q q' : Ring E) (i : ℕ) (es : List E)
      → IsValid q
      → q_get q ≡ (some i, q')
      → (after_puts q' es).loc i ≡ q.loc i
  q_get-after_puts q q' i es v got =
      let (at, after) = q_get-eq_some q q' i got in
      ap (λ r. (after_puts r es).loc i) after
      ∙ ap (λ k. (after_puts (got_state q) es).loc k) at
      ∙ slot_kept (got_state q) es q.begin (got_state-IsValid q v) v.begin_in
          (sym (q_next-small q q.begin v v.begin_in))
      ∙ ap q.loc (sym at)
