-- ===== src/DeviceEvents/Printing.antt =====
-- The loop of `handle_spi_slave_event` that prints the messages in front of the queue.
use usbsec.Base.{
  subst, drop, ℕ, zero, suc, ◌<◌, ◌≡◌, List, [], ◌∷◌, Option, some, none, true, false, length,
  arith, ap, sym, ◌∙◌, Bool-cases, inl, inr, ◌==◌,
}
use usbsec.Node.Sdk.{Sdk, IsFifo, Message, Queue}
use usbsec.Node.State.{Node, Event}
use usbsec.Node.Monad.{ok}
use usbsec.Node.Memory.{free, set_block}
use usbsec.Node.Printf.{formatted, printf}
use usbsec.Messages.{dequeue_spi_message}
use usbsec.Messages.MsgType.{debug_print_as_string}
use usbsec.Messages.Contents.{Content, StandsFor, StandFor, AreApart}
use usbsec.Messages.Send.{StandFor-freed}
use usbsec.DeviceEvents.{next_packet}

-- the first message that is not text, and what is queued behind it
abbrev pub first_packet_of : List Message → Option Message
first_packet_of [] = none
first_packet_of (m ∷ ms) = elim (m.e_flag == debug_print_as_string) [
  | true ↦ first_packet_of ms
  | false ↦ some m
]

abbrev pub behind : List Message → List Message
behind [] = []
behind (m ∷ ms) = elim (m.e_flag == debug_print_as_string) [ true ↦ behind ms | false ↦ ms ]

over_text :
    (m : Message) (ms : List Message)
    → (m.e_flag == debug_print_as_string) ≡ true
    → (first_packet_of (m ∷ ms) ≡ first_packet_of ms) × (behind (m ∷ ms) ≡ behind ms)
over_text m ms h = (ground arith, ground arith)

at_packet :
    (m : Message) (ms : List Message)
    → (m.e_flag == debug_print_as_string) ≡ false
    → (first_packet_of (m ∷ ms) ≡ some m) × (behind (m ∷ ms) ≡ ms)
at_packet m ms h = (ground arith, ground arith)

-- The texts in front end in a zero byte, and no `%` of theirs asks for an argument.
abbrev pub ArePrintable : List Message → List Content → Type 0
ArePrintable [] cs = Unit
ArePrintable (m ∷ ms) [] = Unit
ArePrintable (m ∷ ms) (c ∷ cs) = elim (m.e_flag == debug_print_as_string) [
  | true ↦ ((said : List ℕ) × (formatted false c.bytes ≡ some said)) × ArePrintable ms cs
  | false ↦ Unit
]

over_printable :
    (m : Message) (ms : List Message) (c : Content) (cs : List Content)
    → (m.e_flag == debug_print_as_string) ≡ true
    → ArePrintable (m ∷ ms) (c ∷ cs)
    → ((said : List ℕ) × (formatted false c.bytes ≡ some said)) × ArePrintable ms cs
over_printable m ms c cs h printable =
    subst
      (λ b. elim b as (λ x. Type 0) [
        | true ↦ ((said : List ℕ) × (formatted false c.bytes ≡ some said)) × ArePrintable ms cs
        | false ↦ Unit
      ])
      h printable

-- the node after the text was printed and freed
abbrev printed : Node → Message → Queue → List ℕ → Node
printed n m q text = record n {
  rx = q;
  mem = set_block n.mem m.payload.block none;
  events = Event.print text ∷ n.events;
}

printf_text :
    (n : Node) (m : Message) (q : Queue) (bytes said : List ℕ)
    → n.mem m.payload.block ≡ some bytes
    → m.payload.off ≡ 0
    → formatted false bytes ≡ some said
    → printf m.payload (record n { rx = q })
      ≡ (ok tt, record n { rx = q; events = Event.print said ∷ n.events })
unfolding printf
printf_text n m q bytes said at front is =
    let start : formatted false (drop m.payload.off bytes) ≡ some said =
      ap (λ k. formatted false (drop k bytes)) front ∙ is in
    ground (arith, start)

module _ ⦃sdk : Sdk⦄ where
  next_packet-none :
      (fuel : ℕ) (n : Node)
      → sdk.queue_try_remove n.rx ≡ none
      → next_packet (suc fuel) n ≡ (ok none, n)
  unfolding next_packet dequeue_spi_message
  next_packet-none fuel n empty = ground (arith, empty)

  pub next_packet-packet :
      (fuel : ℕ) (n : Node) (m : Message) (q : Queue)
      → sdk.queue_try_remove n.rx ≡ some (m, q)
      → (m.e_flag == debug_print_as_string) ≡ false
      → next_packet (suc fuel) n ≡ (ok (some m), record n { rx = q })
  unfolding next_packet dequeue_spi_message
  next_packet-packet fuel n m q front other = ground (arith, front)

  next_packet-text :
      (fuel next : ℕ) (n : Node) (m : Message) (q : Queue) (c : Content)
      → sdk.queue_try_remove n.rx ≡ some (m, q)
      → (m.e_flag == debug_print_as_string) ≡ true
      → StandsFor n.mem next m c
      → (said : List ℕ) → formatted false c.bytes ≡ some said
      → next_packet (suc fuel) n ≡ next_packet fuel (printed n m q said)
  unfolding next_packet dequeue_spi_message free
  next_packet-text fuel next n m q c front text (f, l, z, r, lo, hi) said is =
      ground (arith, front, printf_text n m q c.bytes said r z is)

module _ ⦃sdk : Sdk⦄ (fifo : IsFifo sdk) where
  -- `next_packet` returns whenever its fuel is more than the messages in the queue: it takes out
  -- the messages of text in front, and the next message, which it returns; what is behind stays
  -- queued. The messages stand for contents in blocks of their own, and each text in front ends in a
  -- zero byte and has no `%` in it, but for `%%`.
  pub next_packet_lem :
      (fuel : ℕ) (ms : List Message) (cs : List Content) (n : Node)
      → sdk.items n.rx ≡ ms
      → length ms < fuel
      → StandFor n.mem n.next_block ms cs
      → AreApart ms
      → ArePrintable ms cs
      → (n' : Node) × (next_packet fuel n ≡ (ok (first_packet_of ms), n'))
        × (sdk.items n'.rx ≡ behind ms)
  next_packet_lem zero ms cs n its enough stand apart printable = absurd (omega arith)
  next_packet_lem (suc fuel) [] cs n its enough stand apart printable =
      (n, next_packet-none fuel n (fifo.queue_try_remove-empty n.rx its), its)
  next_packet_lem (suc fuel) (m ∷ ms) [] n its enough stand apart printable = elim stand [ ]
  next_packet_lem (suc fuel) (m ∷ ms) (c ∷ cs) n its enough (one, stand) (first, apart) printable =
      let (q, front, rest) = fifo.queue_try_remove-first n.rx m ms its in
      elim (Bool-cases (m.e_flag == debug_print_as_string)) [
        | inl text ↦
            let ((said, is), others) = over_printable m ms c cs text printable in
            let (n', run, left) =
              next_packet_lem fuel ms cs (printed n m q said) rest (omega arith)
                (StandFor-freed n.mem n.next_block m.payload.block ms cs first stand) apart
                others in
            (
              n',
              next_packet-text fuel n.next_block n m q c front text one said is
                  ∙ run
                  ∙ ap (λ o. (ok o, n')) (sym (over_text m ms text).0),
              left ∙ sym (over_text m ms text).1,
            )
        | inr other ↦ (
          record n { rx = q },
          next_packet-packet fuel n m q front other
              ∙ ap (λ o. (ok o, record n { rx = q })) (sym (at_packet m ms other).0),
          rest ∙ sym (at_packet m ms other).1,
        )
      ]
