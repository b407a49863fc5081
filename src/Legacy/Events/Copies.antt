-- ===== src/Legacy/Events/Copies.antt =====
-- `create_event` queues a copy, and `delete_event` gives its memory back.
use usbsec.Base.{
  ℕ, ◌+◌, ◌≢◌, ◌≡◌, refl, ap, ◌∙◌, true, false, none, some, List, [], ◌∷◌, ◌++◌, length, replicate,
  arith, length-replicate, ◌==◌, fun_ext, Bool-cases, inl, inr,
}
use usbsec.Node.Sdk.{Sdk, Store, Pointer}
use usbsec.Node.State.{Node}
use usbsec.Node.Monad.{ok}
use usbsec.Node.Memory.{fetch, poke, set_block, malloc, memcpy, load, store, free}
use usbsec.Node.Memory.Copy.{fetch_other, poke_front, set_block_self, set_block_ne}
use usbsec.Legacy.Queue.{Ring, q_put, q_full}
use usbsec.Legacy.Queue.Fifo.{IsValid, contents, put_state, q_full-contents, contents-put_state}
use usbsec.Legacy.Events.{QueuedEvent, create_event, delete_event, set_payload}

abbrev pub copy_of : Node → QueuedEvent → QueuedEvent
copy_of n e = record e { payload = record { block = n.next_block; off = 0 } }

-- setting the payload after the copy is storing the event with its new payload
set_payload-put_state :
    (q : Ring QueuedEvent) (e : QueuedEvent) (p : Pointer)
    → set_payload (put_state q e) q.end p ≡ put_state q (record e { payload = p })
set_payload-put_state q e p = ap (λ f. record (put_state q e) { loc = f }) (fun_ext (λ i. same i))
  where
    same :
        (i : ℕ)
        → (set_payload (put_state q e) q.end p).loc i
          ≡ (put_state q (record e { payload = p })).loc i
    same i = elim (Bool-cases (i == q.end)) [ inl h ↦ rw h refl | inr h ↦ rw h refl ]

q_put-some :
    (q : Ring QueuedEvent) (e : QueuedEvent)
    → q_full q ≡ false
    → q_put q e ≡ some (q.end, put_state q e)
unfolding q_put
q_put-some q e room = ground (arith, room)

abbrev allocated : Node → ℕ → Node
allocated n len = record n {
  mem = set_block n.mem n.next_block (some (replicate (len + 1) 0));
  next_block = n.next_block + 1;
}

module _ ⦃sdk : Sdk⦄ where
  create_event-run :
      (q : Ring QueuedEvent) (e : QueuedEvent) (n : Node) (bytes : List ℕ) (mem : Store)
      → q_put q e ≡ some (q.end, put_state q e)
      → n.next_block ≢ 0
      → e.payload.block ≢ n.next_block
      → sdk.malloc_fits n.mem (e.payload_length + 1) ≡ true
      → e.payload_length ≡ length bytes
      → length bytes ≢ 0
      → fetch n.mem e.payload (length bytes) ≡ some bytes
      → poke (allocated n e.payload_length).mem (copy_of n e).payload bytes ≡ some mem
      → create_event q e n ≡ (
        ok (set_payload (put_state q e) q.end (copy_of n e).payload),
        record (allocated n e.payload_length) { mem = mem },
      )
  unfolding create_event malloc memcpy load store
  create_event-run q e n bytes mem put nz other fits len some_bytes h poked = ground (
    arith,
    fetch_other n.mem e.payload (length bytes) n.next_block
        (some (replicate (e.payload_length + 1) 0)) other,
  )

  delete_event-run :
      (e : QueuedEvent) (n : Node) (bytes : List ℕ)
      → e.payload_length ≢ 0
      → e.payload.block ≢ 0
      → n.mem e.payload.block ≡ some bytes
      → delete_event e n ≡ (ok tt, record n { mem = set_block n.mem e.payload.block none })
  unfolding delete_event free
  delete_event-run e n bytes some_bytes nz live = ground arith

  -- An event with a payload, put into a ring with room while the heap has room, is stored behind
  -- the contents with a payload of its own: a new block that holds the bytes that the caller's
  -- payload points to. `delete_event` of what is stored then returns and frees that block, and no
  -- other block changes in either call.
  pub create_event_lem :
      (q : Ring QueuedEvent) (e : QueuedEvent) (n : Node) (bytes : List ℕ)
      → IsValid q
      → length (contents q) + 1 ≢ q.capacity
      → n.next_block ≢ 0
      → e.payload.block ≢ n.next_block
      → sdk.malloc_fits n.mem (e.payload_length + 1) ≡ true
      → e.payload_length ≡ length bytes
      → length bytes ≢ 0
      → fetch n.mem e.payload (length bytes) ≡ some bytes
      → (q' : Ring QueuedEvent) × (n' : Node) × (create_event q e n ≡ (ok q', n'))
        × (contents q' ≡ contents q ++ (copy_of n e ∷ []))
        × (fetch n'.mem (copy_of n e).payload (length bytes) ≡ some bytes)
        × ((k : ℕ) → k ≢ n.next_block → n'.mem k ≡ n.mem k)
        × (delete_event (copy_of n e) n'
            ≡ (ok tt, record n' { mem = set_block n'.mem n.next_block none }))
  create_event_lem q e n bytes v room nz other fits len some_bytes h =
      let b = n.next_block in
      let (mem, poked, read, kept, (new, at, size)) =
        poke_front (allocated n e.payload_length).mem b (replicate (e.payload_length + 1) 0) bytes
          (set_block_self n.mem b (some (replicate (e.payload_length + 1) 0)))
          (omega (arith, length-replicate {A = ℕ} (e.payload_length + 1) 0)) in
      (
        set_payload (put_state q e) q.end (copy_of n e).payload,
        record (allocated n e.payload_length) { mem = mem },
        create_event-run q e n bytes mem (q_put-some q e (q_full-contents q v ∙ ground arith)) nz
            other fits len some_bytes h poked,
        ap contents (set_payload-put_state q e (copy_of n e).payload)
            ∙ contents-put_state q (copy_of n e) v room,
        read,
        λ k ne. kept k ne ∙ set_block_ne n.mem b k (some (replicate (e.payload_length + 1) 0)) ne,
        delete_event-run (copy_of n e) (record (allocated n e.payload_length) { mem = mem }) new
            (omega arith) nz at,
      )
