-- ===== src/Messages/Deliver.antt =====
-- Taking one message from the wire in `sync`, as both sides do.
use usbsec.Base.{
  ℕ, ◌+◌, ◌≤◌, ◌<◌, ◌≡◌, refl, List, [], ◌∷◌, ◌++◌, some, true, false, length, arith, subst, sym,
  ◌∙◌,
}
use usbsec.Node.Sdk.{Sdk, IsFifo, spi_queue_max_capacity, Message, Store}
use usbsec.Node.State.{Node, Role, master, slave, Event}
use usbsec.Node.Monad.{ok}
use usbsec.Node.Memory.{messages_bugger, first_heap_block, poke}
use usbsec.Node.Memory.Copy.{poke_front, set_block_self, set_block_ne}
use usbsec.Spi.Frame.{frame, IsIdle}
use usbsec.Spi.Transfer.{received, receive_lem}
use usbsec.Messages.{rx, set_queue, receive_into_bugger, recieve_message, queue_add_with_copy}
use usbsec.Messages.Contents.{
  Content, StandsFor, StandFor, StandFor-AreBelow, NotAmong, AreBelow, AreBelow-suc, next-NotAmong,
  AreApart, AreApart-append, AreDisjoint, AreDisjoint-append,
}
use usbsec.Messages.Enqueue.{copied, with_copy, queue_add_with_copy_lem}

-- the message that `receive_into_bugger` builds
abbrev pub in_bugger : Content → Message
in_bugger c = record { e_flag = c.flag; payload_length = length c.bytes; payload = messages_bugger }

-- The slave raises the pin by which the master sees it wait, and lowers it again.
abbrev pins : Role → List Event → List Event
pins master events = events
pins slave events = Event.gpio_put 14 false ∷ Event.gpio_put 14 true ∷ events

abbrev pub taken : Role → Node → ℕ → List ℕ → Store → Node
taken role n flag rest mem = record (received n flag rest mem) { events = pins role n.events }

module _ ⦃sdk : Sdk⦄ where
  pub receive_into_bugger_lem :
      (role : Role) (n : Node) (c : Content) (idle rest : List ℕ) (mem : Store)
      → n.role ≡ role
      → IsIdle idle
      → n.spi.wire_in ≡ idle ++ (frame c.bytes c.flag ++ rest)
      → length c.bytes < 65536
      → c.flag < 65536
      → poke n.mem messages_bugger c.bytes ≡ some mem
      → receive_into_bugger n ≡ (ok (in_bugger c), taken role n c.flag rest mem)
  unfolding receive_into_bugger recieve_message
  receive_into_bugger_lem master n c idle rest mem m i w small small' h =
      ground (arith, receive_lem messages_bugger c.flag n idle c.bytes rest mem w i small small' h)
  receive_into_bugger_lem slave n c idle rest mem m i w small small' h = ground (
    arith,
    receive_lem messages_bugger c.flag (record n { events = Event.gpio_put 14 true ∷ n.events })
        idle c.bytes rest mem w i small small' h,
  )

-- a node of the role with its `bugger` in place and a heap beyond the static blocks
abbrev pub IsReady : Role → Node → Type 0
IsReady role n =
    (n.role ≡ role)
    × (first_heap_block ≤ n.next_block)
    × ((old : List ℕ) × (n.mem 1 ≡ some old) × (length old ≡ 1025))

module _ ⦃sdk : Sdk⦄ where
  -- One message taken from the wire: the node between the two calls, the message, the node after.
  abbrev pub Delivers : Role → Node → Content → List ℕ → Node → Message → Node → Type 0
  Delivers role n c more n1 m n2 =
      (receive_into_bugger n ≡ (ok (in_bugger c), n1))
      × (queue_add_with_copy rx (in_bugger c) n1 ≡ (ok m, n2))
      × IsReady role n2
      × (n2.spi.wire_in ≡ more)
      × (sdk.items n2.rx ≡ sdk.items n.rx ++ (m ∷ []))
      × StandsFor n2.mem n2.next_block m c
      × (n2.next_block ≡ n.next_block + 1)
      × ((k : ℕ) → 1 < k → k < n.next_block → n2.mem k ≡ n.mem k)
      × (n1.spi.flag ≡ c.flag)
      × (m.payload.block ≡ n.next_block)
      × (n2.spi.dummy ≡ 0xff)

  -- What a loop that receives leaves behind besides what it has queued: it is ready, what was on
  -- the heap is as it was, and what is queued has no payload of messages that were there before,
  -- nor two messages one payload.
  abbrev pub Leaves : Role → Node → Node → Type 0
  Leaves role n n' =
      IsReady role n'
      × (n.next_block ≤ n'.next_block)
      × ((k : ℕ) → 1 < k → k < n.next_block → n'.mem k ≡ n.mem k)
      × ((ts : List Message)
          → AreBelow n.next_block ts
          → AreDisjoint (sdk.items n.rx) ts
          → AreDisjoint (sdk.items n'.rx) ts)
      × (AreApart (sdk.items n.rx) → AreApart (sdk.items n'.rx))

  -- A message that the loop has queued, in front of what it does after that.
  pub Leaves-deliver :
      (role : Role) (n n2 n' : Node) (m : Message) (ds : List Content)
      → StandFor n.mem n.next_block (sdk.items n.rx) ds
      → sdk.items n2.rx ≡ sdk.items n.rx ++ (m ∷ [])
      → n2.next_block ≡ n.next_block + 1
      → ((k : ℕ) → 1 < k → k < n.next_block → n2.mem k ≡ n.mem k)
      → m.payload.block ≡ n.next_block
      → Leaves role n2 n'
      → Leaves role n n'
  Leaves-deliver role n n2 n' m ds stand its next kept at (ready, le, same, others, apart) = (
    ready,
    omega arith,
    (λ k lo hi. same k lo (omega arith) ∙ kept k lo hi),
    (λ ts below disjoint.
        others ts (subst (λ b. AreBelow b ts) (sym next) (AreBelow-suc n.next_block ts below)) (
          subst (λ ms. AreDisjoint ms ts) (sym its)
            (AreDisjoint-append (sdk.items n.rx) ts m disjoint
              (subst (λ b. NotAmong b ts) (sym at) (next-NotAmong n.next_block ts below))))),
    λ before. apart (
        subst AreApart (sym its) (
          AreApart-append (sdk.items n.rx) m
            (subst (λ b. AreBelow b (sdk.items n.rx)) (sym at)
              (StandFor-AreBelow n.mem n.next_block (sdk.items n.rx) ds stand))
            before)),
  )

module _ ⦃sdk : Sdk⦄ (fifo : IsFifo sdk)
    (roomy : (mem : Store) (k : ℕ) → sdk.malloc_fits mem k ≡ true) where
  pub deliver :
      (role : Role) (n : Node) (c : Content) (idle more : List ℕ)
      → IsReady role n
      → length c.bytes ≤ 1025
      → c.flag < 65536
      → IsIdle idle
      → n.spi.wire_in ≡ idle ++ (frame c.bytes c.flag ++ more)
      → length (sdk.items n.rx) < spi_queue_max_capacity
      → (n1 : Node) × (m : Message) × (n2 : Node) × Delivers role n c more n1 m n2
  deliver role n c idle more (own, heap, (old, h, size)) short flags quiet wire room =
      let (mem, poked, read, other, (new, at, len)) =
        poke_front n.mem 1 old c.bytes h (omega arith) in
      let n1 = taken role n c.flag more mem in
      let (q, added, its) =
        queue_add_with_copy_lem fifo rx (in_bugger c) n1 c.bytes (omega arith) (omega arith)
          (roomy mem (length c.bytes)) refl read room in
      (
        n1,
        copied n1 (in_bugger c),
        set_queue rx q (with_copy n1 c.bytes),
        (
          receive_into_bugger_lem role n c idle more mem own quiet wire (omega arith) flags poked,
          added,
          (
            own,
            omega arith,
            (new, set_block_ne mem n.next_block 1 (some c.bytes) (omega arith) ∙ at, len ∙ size),
          ),
          refl,
          its,
          (refl, refl, refl, set_block_self mem n.next_block (some c.bytes), heap, omega arith),
          refl,
          λ k lo hi.
              set_block_ne mem n.next_block k (some c.bytes) (omega arith) ∙ other k (omega arith),
          refl,
          refl,
          refl,
        ),
      )
