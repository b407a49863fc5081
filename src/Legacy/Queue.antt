-- ===== src/Legacy/Queue.antt =====
-- pico_firmware/src/legacy/queueing/queue.c and queue.h: a ring of `capacity` slots. `LOC` is an
-- array of elements of `SIZE` bytes, so the address `LOC + i * SIZE` is slot `i` here, and a
-- `memcpy` of `SIZE` bytes to it replaces the element. `begin` and `end` have 16 bits.
pub mod Fifo
pub mod Refine
pub mod Slots
use usbsec.Base.{ℕ, ◌+◌, ◌-◌, ◌%◌, ◌^◌, Bool, true, false, Option, none, some, ◌==◌, if◌then◌else◌}

-- `queue_t`
pub record Ring {ℓ} (E : Type ℓ) : Type ℓ where
  pub capacity : ℕ
  pub loc : ℕ → E
  pub begin : ℕ
  pub end : ℕ

module _ {ℓ} {E : Type ℓ} where
  unfoldable pub q_empty : Ring E → Bool
  q_empty q = q.begin == q.end

  abbrev pub q_next : Ring E → ℕ → ℕ
  q_next q pos = (pos + 1) % q.capacity

  unfoldable pub q_full : Ring E → Bool
  q_full q = q_next q q.end == q.begin

  -- The result has 8 bits.
  unfoldable pub q_size : Ring E → ℕ
  q_size q = (q.end + q.capacity - q.begin) % q.capacity % 2 ^ 8

  -- the slot that the result points to; `none` is `NULL`
  unfoldable pub q_get : Ring E → Option ℕ × Ring E
  unfolding q_empty
  q_get q = elim (q_empty q) [
    | true ↦ (none, q)
    | false ↦ (some q.begin, record q { begin = q_next q q.begin % 2 ^ 16 })
  ]

  -- `none` where the loop waits for room
  unfoldable pub q_put : Ring E → E → Option (ℕ × Ring E)
  unfolding q_full
  q_put q e = elim (q_full q) [
    | true ↦ none
    | false ↦ some (
      q.end,
      record q { loc = λ i. if i == q.end then e else q.loc i; end = q_next q q.end % 2 ^ 16 },
    )
  ]
