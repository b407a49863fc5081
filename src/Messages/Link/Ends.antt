-- ===== src/Messages/Link/Ends.antt =====
-- Queueing and taking at one end of the link.
use usbsec.Base.{
  ℕ, ◌≤◌, ◌<◌, ◌≡◌, refl, true, some, none, List, [], ◌∷◌, ◌++◌, length, length-append, drop, ap,
  arith,
}
use usbsec.Node.Sdk.{Sdk, IsFifo, Queue, Message, Store, spi_queue_max_capacity}
use usbsec.Node.State.{Node, Role}
use usbsec.Node.Monad.{ok}
use usbsec.Node.Memory.{free, local_bytes, set_block, locals, first_heap_block}
use usbsec.Node.Memory.Copy.{set_block_self, fetch_whole}
use usbsec.Messages.{tx, set_queue, dequeue_spi_message}
use usbsec.Messages.Contents.{Content, StandFor}
use usbsec.Messages.Enqueue.{copied, with_copy}
use usbsec.Messages.Queued.{enqueue_runs}
use usbsec.Messages.Linked.{IsLinked, static-IsLinked, enqueue-IsLinked, take-IsLinked}
use usbsec.Messages.Link.{post, take_message, discard}

abbrev local_node : Node → Content → Node
local_node n c = record n { mem = set_block n.mem 9 (some c.bytes) }

abbrev local_message : Content → Message
local_message c = record { e_flag = c.flag; payload_length = length c.bytes; payload = locals }

abbrev pub posted : Node → Queue → Content → Node
posted n q c = set_queue tx q (with_copy (local_node n c) c.bytes)

module _ ⦃sdk : Sdk⦄ (fifo : IsFifo sdk)
    (roomy : (mem : Store) (k : ℕ) → sdk.malloc_fits mem k ≡ true) where
  pub post_lem :
      (role : Role) (n : Node) (cs ds : List Content) (c : Content)
      → IsLinked role n cs ds
      → length (sdk.items n.tx) < spi_queue_max_capacity
      → (q : Queue) × (post c n ≡ (ok tt, posted n q c))
        × IsLinked role (posted n q c) (cs ++ (c ∷ [])) ds
        × (length (sdk.items q) ≤ spi_queue_max_capacity)
  unfolding post local_bytes
  post_lem role n cs ds c linked room =
      let n1 = local_node n c in
      let (q, runs, its) =
        enqueue_runs fifo (local_message c) n1 c.bytes linked.0.1 (omega (arith, linked.0.1))
          (roomy n1.mem (length c.bytes)) refl
          (fetch_whole n1.mem 9 c.bytes (set_block_self n.mem 9 (some c.bytes))) room in
      (
        q,
        runs,
        enqueue-IsLinked role n1 cs ds (local_message c) c.bytes q refl its
            (static-IsLinked role n cs ds 9 c.bytes (omega arith) (omega arith) linked),
        omega (
          arith,
          ap length its,
          length-append (sdk.items n.tx) (copied n1 (local_message c) ∷ []),
        ),
      )

  abbrev taken_out : Node → Queue → Message → Node
  taken_out n q m = record n { rx = q; mem = set_block n.mem m.payload.block none }

  -- what taking leaves alone
  abbrev IsTaken : Role → Node → List Content → List Content → Node → Type 0
  IsTaken role n cs ds n' =
      (take_message n ≡ (ok tt, n'))
      × IsLinked role n' cs (drop 1 ds)
      × (n'.pin ≡ n.pin)
      × (n'.tx ≡ n.tx)
      × (n'.spi ≡ n.spi)

  take_some :
      (n : Node) (q : Queue) (m : Message) (bytes : List ℕ)
      → sdk.queue_try_remove n.rx ≡ some (m, q)
      → n.mem m.payload.block ≡ some bytes
      → 0 < m.payload.block
      → take_message n ≡ (ok tt, taken_out n q m)
  unfolding take_message dequeue_spi_message discard free
  take_some n q m bytes front held heap = ground (arith, front, held)

  take_none : (n : Node) → sdk.queue_try_remove n.rx ≡ none → take_message n ≡ (ok tt, n)
  unfolding take_message dequeue_spi_message discard
  take_none n empty = ground (arith, empty)

  take_items :
      (role : Role) (n : Node) (cs ds : List Content) (ms : List Message)
      → sdk.items n.rx ≡ ms
      → IsLinked role n cs ds
      → StandFor n.mem n.next_block ms ds
      → (n' : Node) × IsTaken role n cs ds n'
  take_items role n cs [] [] its linked stand =
      (n, (take_none n (fifo.queue_try_remove-empty n.rx its), linked, refl, refl, refl))
  take_items role n cs (d ∷ ds) [] its linked stand = elim stand [ ]
  take_items role n cs [] (m ∷ ms) its linked stand = elim stand [ ]
  take_items role n cs (d ∷ ds) (m ∷ ms) its linked (one, others) =
      let (q, front, rest) = fifo.queue_try_remove-first n.rx m ms its in
      let heap : first_heap_block ≤ m.payload.block = one.4 in
      (
        taken_out n q m,
        (
          take_some n q m d.bytes front one.3 (omega arith),
          take-IsLinked role n cs ds d m ms q its rest linked,
          refl,
          refl,
          refl,
        ),
      )

  -- whether there is a message or not
  pub take_lem :
      (role : Role) (n : Node) (cs ds : List Content)
      → IsLinked role n cs ds
      → (n' : Node) × IsTaken role n cs ds n'
  take_lem role n cs ds linked = take_items role n cs ds (sdk.items n.rx) refl linked linked.2
