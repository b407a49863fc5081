-- ===== src/Messages/Round/Whole.antt =====
-- A round of `sync` on both microcontrollers.
use usbsec.Base.{
  ℕ, ◌+◌, ◌≤◌, ◌<◌, ◌≡◌, true, List, [], ◌∷◌, ◌++◌, length, ap, ◌∙◌, sym, arith, append-nil,
}
use usbsec.Node.Sdk.{Sdk, IsFifo, spi_queue_max_capacity, Store}
use usbsec.Node.State.{Node}
use usbsec.Node.Monad.{ok}
use usbsec.Node.Memory.{first_heap_block}
use usbsec.Messages.{sync}
use usbsec.Messages.Contents.{Content, Fit}
use usbsec.Messages.Exchange.{StandFor-length}
use usbsec.Messages.Send.{frames}
use usbsec.Messages.Query.{query, ArePlain}
use usbsec.Messages.Round.Answer.{announced}
use usbsec.Messages.Round.Master.{IsMaster, round-IsMaster}
use usbsec.Messages.Round.Slave.{IsSlave, round-IsSlave}

-- the wires of a round: what the master and the slave read
abbrev pub AreWired : Node → Node → List Content → List Content → Type 0
AreWired m s cs es =
    (s.spi.wire_in ≡ frames (cs ++ (query ∷ [])))
    × (m.spi.wire_in ≡ frames (announced es ∷ es))
    × (m.spi.wire_out ≡ [])
    × (s.spi.wire_out ≡ [])

module _ ⦃sdk : Sdk⦄ (fifo : IsFifo sdk)
    (roomy : (mem : Store) (k : ℕ) → sdk.malloc_fits mem k ≡ true) where
  -- A round of `sync` carries all messages across, both ways. The queue of the master stands for
  -- `cs` and that of the slave for `es`, in blocks of their own; each wire holds the frames of the
  -- other side, the master's with the query behind its messages and the slave's with the number of
  -- messages in front. Then both calls return; each side has sent exactly what is on the wire of
  -- the other, and has read all of its own; both are ready for another round, with nothing left to
  -- send, the master having received what it had and then `es`, the slave what it had and then
  -- `cs`, in order and with their flags and bytes; of the slave's static arrays only `bugger` has
  -- changed. The slave is attached and waits, both have their `bugger`, room in the heap and in the
  -- queue, and messages that fit 16 bits and `bugger`; none of `cs` has the flag of the query.
  pub sync_lem :
      (m s : Node) (cs es dm ds : List Content)
      → IsMaster m cs dm
      → IsSlave s es ds
      → AreWired m s cs es
      → Fit cs
      → Fit es
      → ArePlain cs
      → length (sdk.items m.rx) + length es ≤ spi_queue_max_capacity
      → length (sdk.items s.rx) + length cs ≤ spi_queue_max_capacity
      → (m' : Node) × (s' : Node) × (sync m ≡ (ok tt, m'))
        × (sync s ≡ (ok tt, s'))
        × (m'.spi.wire_out ≡ s.spi.wire_in)
        × (s'.spi.wire_out ≡ m.spi.wire_in)
        × (m'.spi.wire_in ≡ [])
        × (s'.spi.wire_in ≡ [])
        × IsMaster m' [] (dm ++ es)
        × IsSlave s' [] (ds ++ cs)
        × ((k : ℕ) → 1 < k → k < first_heap_block → s'.mem k ≡ s.mem k)
  sync_lem m s cs es dm ds master slave (wire_s, wire_m, quiet_m, quiet_s) fit_m fit_s plain room_m
        room_s =
      let (m', ran_m, out_m, left_m, master') =
        round-IsMaster fifo roomy m cs es dm [] master fit_s
          (omega (arith, StandFor-length s.mem s.next_block (sdk.items s.tx) es slave.0.1)) room_m
          (wire_m ∙ sym (append-nil (frames (announced es ∷ es)))) in
      let (s', ran_s, out_s, left_s, slave', static) =
        round-IsSlave fifo roomy s cs es ds [] slave fit_m plain room_s
          (wire_s ∙ sym (append-nil (frames (cs ++ (query ∷ []))))) in
      (
        m',
        s',
        ran_m,
        ran_s,
        out_m ∙ ap (λ w. w ++ frames (cs ++ (query ∷ []))) quiet_m ∙ sym wire_s,
        out_s ∙ ap (λ w. w ++ frames (announced es ∷ es)) quiet_s ∙ sym wire_m,
        left_m,
        left_s,
        master',
        slave',
        static,
      )
