-- ===== src/Messages/Exchange.antt =====
-- The slave's messages on their way to the master, through both halves of `sync`.
use usbsec.Base.{
  ℕ, suc, true, ◌+◌, ◌≤◌, ◌≡◌, refl, List, [], ◌∷◌, ◌++◌, length, ap, ◌∙◌, append_assoc, subst, sym,
}
use usbsec.Node.Sdk.{Sdk, IsFifo, spi_queue_max_capacity, Message, Store}
use usbsec.Node.State.{Node, master}
use usbsec.Node.Monad.{ok}
use usbsec.Spi.Frame.{frame}
use usbsec.Messages.{send_count, receive_count}
use usbsec.Messages.Contents.{Content, StandFor, Fit, Carries, AreApart}
use usbsec.Messages.Deliver.{IsReady}
use usbsec.Messages.Receive.{receive_count_lem}
use usbsec.Messages.Send.{frames, AreFreed, send_count_lem}

-- frames with nothing between them are a wire that carries the messages
pub frames-Carries : (cs : List Content) (rest : List ℕ) → Carries cs rest (frames cs ++ rest)
frames-Carries [] rest = refl
frames-Carries (c ∷ cs) rest = (
  [],
  frames cs ++ rest,
  tt,
  append_assoc (frame c.bytes c.flag) (frames cs) rest,
  frames-Carries cs rest,
)

pub StandFor-length :
    (mem : Store) (next : ℕ) (ms : List Message) (cs : List Content)
    → StandFor mem next ms cs
    → length ms ≡ length cs
StandFor-length mem next [] [] h = refl
StandFor-length mem next [] (c ∷ cs) h = elim h [ ]
StandFor-length mem next (m ∷ ms) [] h = elim h [ ]
StandFor-length mem next (m ∷ ms) (c ∷ cs) (h, hs) = ap suc (StandFor-length mem next ms cs hs)

-- a slave that has messages to send: its queue stands for them, in blocks of their own, and the
-- link has received before and sent nothing since
abbrev pub IsSending : ⦃sdk : Sdk⦄ → Node → List Content → Type 0
IsSending ⦃sdk⦄ s cs =
    (s.spi.dummy ≡ 0xff)
    × (s.spi.wire_out ≡ [])
    × StandFor s.mem s.next_block (sdk.items s.tx) cs
    × AreApart (sdk.items s.tx)

module _ ⦃sdk : Sdk⦄ (fifo : IsFifo sdk)
    (roomy : (mem : Store) (k : ℕ) → sdk.malloc_fits mem k ≡ true) where
  -- The messages that a slave has queued reach the master, all of them, in order, with their flags
  -- and bytes: the slave's `send_count` and the master's `receive_count`, for the number of
  -- messages in the slave's queue, both return; the master's queue stands for what it stood for
  -- and then for the slave's messages; the slave's queue is empty and its payloads are freed, and
  -- what followed on the wire is left. The slave's messages are in blocks of their own, its link is
  -- ready to transmit and has nothing on the wire, and the master's wire carries what the slave
  -- sends. The master's queue has room for the messages, its heap has room and lies beyond the
  -- static blocks, its `bugger` is in place, and every message fits `bugger` and 16 bits.
  pub exchange :
      (s n : Node) (cs ds : List Content) (rest : List ℕ)
      → IsSending s cs
      → IsReady master n
      → Fit cs
      → StandFor n.mem n.next_block (sdk.items n.rx) ds
      → length (sdk.items n.rx) + length cs ≤ spi_queue_max_capacity
      → n.spi.wire_in ≡ (send_count (sdk.queue_level s.tx) s).1.spi.wire_out ++ rest
      → (s' n' : Node) × (send_count (sdk.queue_level s.tx) s ≡ (ok tt, s'))
        × (receive_count (sdk.queue_level s.tx) n ≡ (ok tt, n'))
        × (sdk.items s'.tx ≡ [])
        × AreFreed s'.mem (sdk.items s.tx)
        × StandFor n'.mem n'.next_block (sdk.items n'.rx) (ds ++ cs)
        × (n'.spi.wire_in ≡ rest)
  exchange s n cs ds rest (d, quiet, stand, apart) ready fit stand' room wire =
      let (s', run, out, empty, freed, other) =
        send_count_lem fifo (sdk.items s.tx) cs s refl d stand apart in
      let level : sdk.queue_level s.tx ≡ length (sdk.items s.tx) = fifo.queue_level_lem s.tx in
      let ran : send_count (sdk.queue_level s.tx) s ≡ (ok tt, s') =
        ap (λ k. send_count k s) level ∙ run in
      let carried : n.spi.wire_in ≡ frames cs ++ rest =
        wire
        ∙ ap (λ o. o.1.spi.wire_out ++ rest) ran
        ∙ ap (λ w. w ++ rest) out
        ∙ ap (λ w. (w ++ frames cs) ++ rest) quiet in
      let (n', got, left, all, count, ready') =
        receive_count_lem fifo roomy cs n rest ds ready fit
          (subst (Carries cs rest) (sym carried) (frames-Carries cs rest)) room stand' in
      (
        s',
        n',
        ran,
        ap (λ k. receive_count k n)
              (level ∙ StandFor-length s.mem s.next_block (sdk.items s.tx) cs stand)
            ∙ got,
        empty,
        freed,
        all,
        left,
      )
