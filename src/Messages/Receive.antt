-- ===== src/Messages/Receive.antt =====
-- The loop of the master that takes the messages of the slave: `receive_count`.
use usbsec.Base.{
  ℕ, suc, ◌+◌, ◌≤◌, ◌≡◌, refl, List, [], ◌∷◌, ◌++◌, true, length, arith, ap, length-append,
  append-nil, subst, sym, append_assoc,
}
use usbsec.Node.Sdk.{Sdk, IsFifo, spi_queue_max_capacity, Message, Store}
use usbsec.Node.State.{Node, master}
use usbsec.Node.Monad.{ok}
use usbsec.Messages.{rx, receive_into_bugger, receive_count, queue_add_with_copy}
use usbsec.Messages.Contents.{Content, Carries, StandFor, StandFor-next, Fit}
use usbsec.Messages.Deliver.{IsReady, Leaves, Leaves-deliver, in_bugger, deliver}

module _ ⦃sdk : Sdk⦄ where
  receive_count-step :
      (k : ℕ) (n n1 n2 n' : Node) (b m : Message)
      → receive_into_bugger n ≡ (ok b, n1)
      → queue_add_with_copy rx b n1 ≡ (ok m, n2)
      → receive_count k n2 ≡ (ok tt, n')
      → receive_count (suc k) n ≡ (ok tt, n')
  unfolding receive_count
  receive_count-step k n n1 n2 n' b m first second rest = ground (arith, first, second, rest)

module _ ⦃sdk : Sdk⦄ (fifo : IsFifo sdk)
    (roomy : (mem : Store) (k : ℕ) → sdk.malloc_fits mem k ≡ true) where
  pub receive_all :
      (cs : List Content) (n : Node) (rest : List ℕ) (ds : List Content)
      → IsReady master n
      → Fit cs
      → Carries cs rest n.spi.wire_in
      → length (sdk.items n.rx) + length cs ≤ spi_queue_max_capacity
      → StandFor n.mem n.next_block (sdk.items n.rx) ds
      → (n' : Node) × (receive_count (length cs) n ≡ (ok tt, n'))
        × (n'.spi.wire_in ≡ rest)
        × StandFor n'.mem n'.next_block (sdk.items n'.rx) (ds ++ cs)
        × (length (sdk.items n'.rx) ≡ length (sdk.items n.rx) + length cs)
        × (n.spi.dummy ≡ 0xff → n'.spi.dummy ≡ 0xff)
        × Leaves master n n'
  unfolding receive_count
  receive_all [] n rest ds ready fit wire room stand = (
    n,
    refl,
    wire,
    subst (StandFor n.mem n.next_block (sdk.items n.rx)) (sym (append-nil ds)) stand,
    omega arith,
    (λ d. d),
    (ready, omega arith, (λ k lo hi. refl), (λ ts below disjoint. disjoint), λ apart. apart),
  )
  receive_all (c ∷ cs) n rest ds ready (short, flags, fit) (idle, more, quiet, wire, later) room
        stand =
      let (n1, m, n2, (first, second, ready2, wire2, its, new, next, kept, flagged, at, d2)) =
        deliver fifo roomy master n c idle more ready short flags quiet wire (omega arith) in
      let grown : length (sdk.items n2.rx) ≡ length (sdk.items n.rx) + 1 =
        omega (arith, ap length its, length-append (sdk.items n.rx) (m ∷ [])) in
      let (n', rec, out, stand', count, d, leaves) =
        receive_all cs n2 rest (ds ++ (c ∷ [])) ready2 fit
          (subst (Carries cs rest) (sym wire2) later) (omega arith)
          (StandFor-next n.mem n2.mem n.next_block n2.next_block (sdk.items n.rx) (sdk.items n2.rx)
            m ds c its new next (λ k lo hi. kept k (omega arith) hi) stand) in
      (
        n',
        receive_count-step (length cs) n n1 n2 n' (in_bugger c) m first second rec,
        out,
        subst (StandFor n'.mem n'.next_block (sdk.items n'.rx)) (append_assoc ds (c ∷ []) cs)
            stand',
        omega arith,
        (λ _. d d2),
        Leaves-deliver master n n2 n' m ds stand its next kept at leaves,
      )

  -- `receive_count` returns: where the wire of a master carries messages, with idle bytes in front
  -- of each, and the queue has room for them, it queues all of them behind what was queued, in the
  -- order of the wire, each with its flag and with its bytes in a block of its own, and what was
  -- queued before keeps its bytes. Just the messages are taken from the wire. Every message fits
  -- `bugger`, which is in place, and 16 bits; the heap has room and lies beyond the static blocks,
  -- and what was queued is in such blocks.
  pub receive_count_lem :
      (cs : List Content) (n : Node) (rest : List ℕ) (ds : List Content)
      → IsReady master n
      → Fit cs
      → Carries cs rest n.spi.wire_in
      → length (sdk.items n.rx) + length cs ≤ spi_queue_max_capacity
      → StandFor n.mem n.next_block (sdk.items n.rx) ds
      → (n' : Node) × (receive_count (length cs) n ≡ (ok tt, n'))
        × (n'.spi.wire_in ≡ rest)
        × StandFor n'.mem n'.next_block (sdk.items n'.rx) (ds ++ cs)
        × (length (sdk.items n'.rx) ≡ length (sdk.items n.rx) + length cs)
        × IsReady master n'
  receive_count_lem cs n rest ds ready fit wire room stand =
      let (n', runs, out, stand', count, d, leaves) =
        receive_all cs n rest ds ready fit wire room stand in
      (n', runs, out, stand', count, leaves.0)
