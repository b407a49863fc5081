-- ===== src/Messages/Enqueue.antt =====
-- `queue_add_with_copy` and `dequeue_spi_message`: what a message is in a queue.
use usbsec.Base.{
  ℕ, ◌+◌, ◌<◌, ◌≢◌, ◌≡◌, List, [], ◌∷◌, ◌++◌, some, true, false, length, replicate, arith,
}
use usbsec.Node.Sdk.{Sdk, IsFifo, spi_queue_max_capacity, Queue, Message}
use usbsec.Node.State.{Node, Event}
use usbsec.Node.Monad.{ok, stop, Stop, runtime_assert}
use usbsec.Node.Memory.{fetch, set_block, malloc, memcpy, load, store}
use usbsec.Node.Memory.Copy.{fetch_other, poke_fresh}
use usbsec.Messages.{
  Direction, tx, rx, queue_of, set_queue, queue_add_with_copy, queue_add_blocking,
}

-- the message as it is queued: its payload is the new block
abbrev pub copied : Node → Message → Message
copied n m = record m { payload = record { block = n.next_block; off = 0 } }

abbrev pub with_copy : Node → List ℕ → Node
with_copy n bytes = record n {
  mem = set_block n.mem n.next_block (some bytes);
  next_block = n.next_block + 1;
}

module _ ⦃sdk : Sdk⦄ where
  -- the calls before the queue: the copy is made
  copy_then_add :
      (d : Direction) (m : Message) (n : Node) (bytes : List ℕ)
      → n.next_block ≢ 0
      → m.payload.block ≢ n.next_block
      → sdk.malloc_fits n.mem (length bytes) ≡ true
      → m.payload_length ≡ length bytes
      → fetch n.mem m.payload (length bytes) ≡ some bytes
      → (q : Queue) → sdk.queue_add (queue_of d n) (copied n m) ≡ some q
      → queue_add_with_copy d m n ≡ (ok (copied n m), set_queue d q (with_copy n bytes))
  unfolding queue_add_with_copy queue_add_blocking malloc runtime_assert memcpy load store
  copy_then_add tx m n bytes nz other fits len h q room = ground (
    arith,
    fetch_other n.mem m.payload (length bytes) n.next_block (some (replicate (length bytes) 0))
        other,
    poke_fresh n.mem n.next_block bytes,
  )
  copy_then_add rx m n bytes nz other fits len h q room = ground (
    arith,
    fetch_other n.mem m.payload (length bytes) n.next_block (some (replicate (length bytes) 0))
        other,
    poke_fresh n.mem n.next_block bytes,
  )

module _ ⦃sdk : Sdk⦄ (fifo : IsFifo sdk) where
  -- Queueing a message while there is room in the queue and in the heap: the queue has one more
  -- message, at its end, with the flag and length of the caller's; its payload is a new block that
  -- holds exactly the bytes that the caller's payload pointed to, and of the rest of the memory
  -- nothing changes, nor does anything else in the node.
  pub queue_add_with_copy_lem :
      (d : Direction) (m : Message) (n : Node) (bytes : List ℕ)
      → n.next_block ≢ 0
      → m.payload.block ≢ n.next_block
      → sdk.malloc_fits n.mem (length bytes) ≡ true
      → m.payload_length ≡ length bytes
      → fetch n.mem m.payload (length bytes) ≡ some bytes
      → length (sdk.items (queue_of d n)) < spi_queue_max_capacity
      → (q : Queue) × (queue_add_with_copy d m n
          ≡ (ok (copied n m), set_queue d q (with_copy n bytes)))
        × (sdk.items q ≡ sdk.items (queue_of d n) ++ (copied n m ∷ []))
  queue_add_with_copy_lem d m n bytes nz other fits len h room =
      let (q, added, its) = fifo.queue_add-room (queue_of d n) (copied n m) room in
      (q, copy_then_add d m n bytes nz other fits len h q added, its)

  -- With no room in the heap for the copy the message is not queued: the assertion on the copy
  -- fails, after the LED is lit.
  pub queue_add_with_copy_stops :
      (d : Direction) (m : Message) (n : Node)
      → sdk.malloc_fits n.mem m.payload_length ≡ false
      → queue_add_with_copy d m n
        ≡ (stop Stop.assertion, record n { events = Event.gpio_put 25 true ∷ n.events })
  unfolding queue_add_with_copy malloc runtime_assert
  queue_add_with_copy_stops d m n full = ground arith
