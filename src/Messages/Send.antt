-- ===== src/Messages/Send.antt =====
-- The slave's half of `sync` that puts its messages on the wire: `send_count`.
use usbsec.Base.{
  ℕ, suc, ◌≡◌, refl, List, [], ◌∷◌, ◌++◌, some, none, length, arith, ◌∙◌, append_assoc, append-nil,
  subst, sym,
}
use usbsec.Node.Sdk.{Sdk, IsFifo, Queue, Message, Store}
use usbsec.Node.State.{Node}
use usbsec.Node.Monad.{ok}
use usbsec.Node.Memory.{fetch, set_block, free}
use usbsec.Node.Memory.Copy.{set_block_ne, set_block_self, fetch_whole}
use usbsec.Spi.Frame.{frame}
use usbsec.Spi.Transfer.{send_lem}
use usbsec.Messages.{send_count, queue_remove_blocking}
use usbsec.Messages.Contents.{Content, StandsFor, StandFor, NotAmong, AreApart}

-- the frames of messages, one behind the other
abbrev pub frames : List Content → List ℕ
frames [] = []
frames (c ∷ cs) = frame c.bytes c.flag ++ frames cs

abbrev pub AreFreed : Store → List Message → Type 0
AreFreed mem [] = Unit
AreFreed mem (m ∷ ms) = (mem m.payload.block ≡ none) × AreFreed mem ms

pub StandFor-freed :
    (mem : Store) (next b : ℕ) (ms : List Message) (cs : List Content)
    → NotAmong b ms
    → StandFor mem next ms cs
    → StandFor (set_block mem b none) next ms cs
StandFor-freed mem next b [] [] apart h = tt
StandFor-freed mem next b [] (c ∷ cs) apart h = elim h [ ]
StandFor-freed mem next b (m ∷ ms) [] apart h = elim h [ ]
StandFor-freed mem next b (m ∷ ms) (c ∷ cs) (ne, apart) ((f, l, z, r, lo, hi), hs) = (
  (f, l, z, set_block_ne mem b m.payload.block none ne ∙ r, lo, hi),
  StandFor-freed mem next b ms cs apart hs,
)

-- the node after a message was sent and freed
abbrev pub passed_on : Node → Message → Queue → Content → Node
passed_on n m q c = record n {
  tx = q;
  mem = set_block n.mem m.payload.block none;
  spi = record (n.spi) { flag = c.flag; wire_out = n.spi.wire_out ++ frame c.bytes c.flag };
}

-- reading the whole payload
pub fetch_message :
    (mem : Store) (m : Message) (bytes : List ℕ)
    → m.payload.off ≡ 0
    → mem m.payload.block ≡ some bytes
    → fetch mem m.payload (length bytes) ≡ some bytes
fetch_message mem m bytes z h =
    subst (λ o. fetch mem (record { block = m.payload.block; off = o }) (length bytes) ≡ some bytes)
      (sym z) (fetch_whole mem m.payload.block bytes h)

module _ ⦃sdk : Sdk⦄ where
  send_one :
      (n : Node) (m : Message) (q : Queue) (c : Content) (next : ℕ)
      → sdk.queue_try_remove n.tx ≡ some (m, q)
      → n.spi.dummy ≡ 0xff
      → StandsFor n.mem next m c
      → (k : ℕ) → send_count (suc k) n ≡ send_count k (passed_on n m q c)
  unfolding send_count queue_remove_blocking free
  send_one n m q c next front d (f, l, z, r, heap, below) k = ground (
    arith,
    send_lem m.payload c.flag (record n { tx = q }) c.bytes d (fetch_message n.mem m c.bytes z r),
  )

module _ ⦃sdk : Sdk⦄ (fifo : IsFifo sdk) where
  -- `send_count` returns: asked for as many messages as the queue holds, it puts them on the wire
  -- as frames, in the order of the queue, and frees their payloads, leaving the queue empty. The
  -- messages stand for the contents in blocks of their own, and the wire is ready to transmit.
  pub send_count_lem :
      (ms : List Message) (cs : List Content) (n : Node)
      → sdk.items n.tx ≡ ms
      → n.spi.dummy ≡ 0xff
      → StandFor n.mem n.next_block ms cs
      → AreApart ms
      → (n' : Node) × (send_count (length ms) n ≡ (ok tt, n'))
        × (n'.spi.wire_out ≡ n.spi.wire_out ++ frames cs)
        × (sdk.items n'.tx ≡ [])
        × AreFreed n'.mem ms
        × ((k : ℕ) → NotAmong k ms → n'.mem k ≡ n.mem k)
  unfolding send_count
  send_count_lem [] [] n its d stand apart =
      (n, refl, sym (append-nil n.spi.wire_out), its, tt, λ k h. refl)
  send_count_lem [] (c ∷ cs) n its d stand apart = elim stand [ ]
  send_count_lem (m ∷ ms) [] n its d stand apart = elim stand [ ]
  send_count_lem (m ∷ ms) (c ∷ cs) n its d (one, stand) (first, apart) =
      let (q, front, rest) = fifo.queue_try_remove-first n.tx m ms its in
      let (n', run, out, empty, freed, kept) =
        send_count_lem ms cs (passed_on n m q c) rest d
          (StandFor-freed n.mem n.next_block m.payload.block ms cs first stand) apart in
      (
        n',
        send_one n m q c n.next_block front d one (length ms) ∙ run,
        out ∙ append_assoc n.spi.wire_out (frame c.bytes c.flag) (frames cs),
        empty,
        (kept m.payload.block first ∙ set_block_self n.mem m.payload.block none, freed),
        λ k (ne, h). kept k h ∙ set_block_ne n.mem m.payload.block k none (λ e. ne (sym e)),
      )
