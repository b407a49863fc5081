-- ===== src/Messages/Queued.antt =====
-- A message that a handler has queued for the other side.
use usbsec.Base.{ℕ, ◌≡◌, ◌≢◌, ◌≤◌, ◌<◌, refl, List, [], ◌∷◌, ◌++◌, some, true, length, arith}
use usbsec.Node.Sdk.{Sdk, IsFifo, Queue, Message, spi_queue_max_capacity}
use usbsec.Node.State.{Node}
use usbsec.Node.Monad.{ok}
use usbsec.Node.Memory.{first_heap_block, fetch}
use usbsec.Node.Memory.Copy.{set_block_self}
use usbsec.Messages.{set_queue, tx, enqueue_spi_message}
use usbsec.Messages.Contents.{Content, StandsFor}
use usbsec.Messages.Enqueue.{copied, with_copy, queue_add_with_copy_lem}

-- `n'` has the message with that content behind those that `n` has for the slave.
abbrev pub IsQueued : ⦃sdk : Sdk⦄ → Content → Node → Node → Type 0
IsQueued ⦃sdk⦄ c n n' =
    (m : Message) × (sdk.items n'.tx ≡ sdk.items n.tx ++ (m ∷ []))
    × StandsFor n'.mem n'.next_block m c

module _ ⦃sdk : Sdk⦄ (fifo : IsFifo sdk) where
  pub enqueue_runs :
      (m : Message) (n : Node) (bytes : List ℕ)
      → first_heap_block ≤ n.next_block
      → m.payload.block ≢ n.next_block
      → sdk.malloc_fits n.mem (length bytes) ≡ true
      → m.payload_length ≡ length bytes
      → fetch n.mem m.payload (length bytes) ≡ some bytes
      → length (sdk.items n.tx) < spi_queue_max_capacity
      → (q : Queue) × (enqueue_spi_message m n ≡ (ok tt, set_queue tx q (with_copy n bytes)))
        × (sdk.items q ≡ sdk.items n.tx ++ (copied n m ∷ []))
  unfolding enqueue_spi_message
  enqueue_runs m n bytes heap other fits len h room =
      let (q, runs, its) =
        queue_add_with_copy_lem fifo tx m n bytes (omega arith) other fits len h room in
      (q, ground (arith, runs), its)

  pub enqueue_lem :
      (m : Message) (n : Node) (bytes : List ℕ)
      → first_heap_block ≤ n.next_block
      → m.payload.block ≢ n.next_block
      → sdk.malloc_fits n.mem (length bytes) ≡ true
      → m.payload_length ≡ length bytes
      → fetch n.mem m.payload (length bytes) ≡ some bytes
      → length (sdk.items n.tx) < spi_queue_max_capacity
      → (n' : Node) × (enqueue_spi_message m n ≡ (ok tt, n'))
        × IsQueued (record { flag = m.e_flag; bytes = bytes }) n n'
  enqueue_lem m n bytes heap other fits len h room =
      let (q, runs, its) = enqueue_runs m n bytes heap other fits len h room in
      (
        set_queue tx q (with_copy n bytes),
        runs,
        (
          copied n m,
          its,
          (refl, len, refl, set_block_self n.mem n.next_block (some bytes), heap, omega arith),
        ),
      )
