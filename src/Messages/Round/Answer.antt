-- ===== src/Messages/Round/Answer.antt =====
-- The second half of the master's part of a round: the answer of the slave, and its messages.
use usbsec.Base.{
  ℕ, ◌+◌, ◌≤◌, ◌<◌, ◌≡◌, refl, true, some, List, [], ◌∷◌, ◌++◌, length, ◌∙◌, arith, append_assoc,
}
use usbsec.Node.Sdk.{Sdk, IsFifo, spi_queue_max_capacity, Store}
use usbsec.Node.State.{Node, master}
use usbsec.Node.Monad.{ok}
use usbsec.Node.Memory.{messages_bugger, poke, load_byte}
use usbsec.Node.Memory.Copy.{poke_front}
use usbsec.Node.Memory.Bytes.{load_byte-fetched}
use usbsec.Spi.Frame.{frame}
use usbsec.Spi.Transfer.{received, receive_lem}
use usbsec.Messages.{recieve_message, receive_count}
use usbsec.Messages.Contents.{Content, StandFor, StandFor-heap, AreApart, Fit}
use usbsec.Messages.Send.{frames}
use usbsec.Messages.Deliver.{IsReady}
use usbsec.Messages.Receive.{receive_all}
use usbsec.Messages.Exchange.{frames-Carries}
use usbsec.Messages.Untouched.{sending_part, receive_count-same}

-- how many messages the slave announces
abbrev pub announced : List Content → Content
announced es = record { flag = 0; bytes = length es ∷ [] }

answer_taken :
    (n : Node) (count : ℕ) (rest : List ℕ) (mem : Store)
    → n.role ≡ master
    → n.spi.wire_in ≡ frame (count ∷ []) 0 ++ rest
    → count < 256
    → poke n.mem messages_bugger (count ∷ []) ≡ some mem
    → recieve_message messages_bugger n ≡ (ok 1, received n 0 rest mem)
unfolding recieve_message
answer_taken n count rest mem role wire few poked = ground (
  arith,
  receive_lem messages_bugger 0 n [] (count ∷ []) rest mem wire tt (omega arith) (omega arith)
      poked,
)

module _ ⦃sdk : Sdk⦄ (fifo : IsFifo sdk)
    (roomy : (mem : Store) (k : ℕ) → sdk.malloc_fits mem k ≡ true) where
  -- the second half: the answer of the slave, and its messages
  abbrev pub Answered : Node → List Content → List Content → List ℕ → Node → Node → Type 0
  Answered n es ds rest n4 n' =
      (recieve_message messages_bugger n ≡ (ok 1, n4))
      × (load_byte messages_bugger n4 ≡ (ok (length es), n4))
      × (receive_count (length es) n4 ≡ (ok tt, n'))
      × (sending_part n' ≡ sending_part n)
      × (n'.spi.wire_in ≡ rest)
      × StandFor n'.mem n'.next_block (sdk.items n'.rx) (ds ++ es)
      × IsReady master n'
      × (n'.spi.dummy ≡ 0xff)
      × AreApart (sdk.items n'.rx)

  pub answered_lem :
      (n : Node) (es ds : List Content) (rest : List ℕ)
      → IsReady master n
      → Fit es
      → length es < 256
      → length (sdk.items n.rx) + length es ≤ spi_queue_max_capacity
      → n.spi.wire_in ≡ frames (announced es ∷ es) ++ rest
      → StandFor n.mem n.next_block (sdk.items n.rx) ds
      → AreApart (sdk.items n.rx)
      → (n4 : Node) × (n' : Node) × Answered n es ds rest n4 n'
  answered_lem n es ds rest (own, heap, (old, at, size)) fit few room wire stand apart =
      let (mem, poked, read, other, (new, at', len)) =
        poke_front n.mem 1 old (length es ∷ []) at (omega arith) in
      let n4 = received n 0 (frames es ++ rest) mem in
      let (n', runs, out, stand', _, d, (ready, _, _, _, kept_apart)) =
        receive_all fifo roomy es n4 rest ds (own, heap, (new, at', len ∙ size)) fit
          (frames-Carries es rest) room
          (StandFor-heap n.mem mem n.next_block n.next_block (sdk.items n.rx) ds
            (λ k lo hi. other k (omega arith)) (omega arith) stand) in
      (
        n4,
        n',
        (
          answer_taken n (length es) (frames es ++ rest) mem own
              (wire ∙ append_assoc (frame (length es ∷ []) 0) (frames es) rest) few poked,
          load_byte-fetched messages_bugger n4 (length es) read,
          runs,
          receive_count-same (length es) n4 n' runs,
          out,
          stand',
          ready,
          d refl,
          kept_apart apart,
        ),
      )
