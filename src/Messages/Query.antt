-- ===== src/Messages/Query.antt =====
-- The slave's half of `sync` that takes the messages of the master from the wire, until the master
-- asks for the slave's: `receive_until_query`.
use usbsec.Base.{
  ℕ, zero, suc, ◌+◌, ◌≤◌, ◌<◌, ◌≡◌, refl, List, [], ◌∷◌, ◌++◌, some, true, false, length, arith, ap,
  length-append, append-nil, subst, sym, ◌∙◌, append_assoc, has,
}
use usbsec.Node.Sdk.{Sdk, IsFifo, spi_queue_max_capacity, Message, Store}
use usbsec.Node.State.{Node, slave}
use usbsec.Node.Monad.{ok}
use usbsec.Node.Memory.{poke, messages_bugger}
use usbsec.Spi.Frame.{frame}
use usbsec.Messages.{rx, receive_into_bugger, receive_until_query, queue_add_with_copy}
use usbsec.Messages.MsgType.{slave_data_query}
use usbsec.Messages.Contents.{Content, Carries, StandFor, StandFor-next, Fit}
use usbsec.Messages.Deliver.{
  IsReady, Leaves, Leaves-deliver, taken, in_bugger, receive_into_bugger_lem, deliver,
}

-- the message by which the master asks
abbrev pub query : Content
query = record { flag = slave_data_query; bytes = [] }

abbrev pub ArePlain : List Content → Type 0
ArePlain [] = Unit
ArePlain (c ∷ cs) = (has c.flag slave_data_query ≡ false) × ArePlain cs

-- a wire is at least as long as the messages on it are many
Carries-length :
    (cs : List Content) (rest wire : List ℕ) → Carries cs rest wire → length cs ≤ length wire
Carries-length [] rest wire h = omega arith
Carries-length (c ∷ cs) rest wire (idle, more, quiet, e, later) = omega (
  arith,
  Carries-length cs rest more later,
  ap length e,
  length-append idle (frame c.bytes c.flag ++ more),
  length-append c.bytes more,
)

pub enough_fuel :
    (cs : List Content) (n : Node) (rest : List ℕ)
    → Carries (cs ++ (query ∷ [])) rest n.spi.wire_in
    → length cs < suc (length n.spi.wire_in)
enough_fuel cs n rest wire = omega (
  arith,
  Carries-length (cs ++ (query ∷ [])) rest n.spi.wire_in wire,
  length-append cs (query ∷ []),
)

poke_nothing : (mem : Store) → poke mem messages_bugger [] ≡ some mem
unfolding poke
poke_nothing mem = refl

module _ ⦃sdk : Sdk⦄ where
  query_ends :
      (fuel : ℕ) (n n1 : Node) (m : Message)
      → receive_into_bugger n ≡ (ok m, n1)
      → n1.spi.flag ≡ slave_data_query
      → receive_until_query (suc fuel) n ≡ (ok tt, n1)
  unfolding receive_until_query
  query_ends fuel n n1 m first asked = ground (arith, first)

  plain_goes_on :
      (fuel : ℕ) (n n1 n2 n' : Node) (b m : Message)
      → receive_into_bugger n ≡ (ok b, n1)
      → has n1.spi.flag slave_data_query ≡ false
      → queue_add_with_copy rx b n1 ≡ (ok m, n2)
      → receive_until_query fuel n2 ≡ (ok tt, n')
      → receive_until_query (suc fuel) n ≡ (ok tt, n')
  unfolding receive_until_query
  plain_goes_on fuel n n1 n2 n' b m first plain second rest = ground (arith, first, second, rest)

module _ ⦃sdk : Sdk⦄ (fifo : IsFifo sdk)
    (roomy : (mem : Store) (k : ℕ) → sdk.malloc_fits mem k ≡ true) where
  pub with_fuel :
      (cs : List Content) (fuel : ℕ) (n : Node) (rest : List ℕ) (ds : List Content)
      → length cs < fuel
      → IsReady slave n
      → Fit cs
      → ArePlain cs
      → Carries (cs ++ (query ∷ [])) rest n.spi.wire_in
      → length (sdk.items n.rx) + length cs ≤ spi_queue_max_capacity
      → StandFor n.mem n.next_block (sdk.items n.rx) ds
      → (n' : Node) × (receive_until_query fuel n ≡ (ok tt, n'))
        × (n'.spi.wire_in ≡ rest)
        × StandFor n'.mem n'.next_block (sdk.items n'.rx) (ds ++ cs)
        × (n'.spi.dummy ≡ 0xff)
        × Leaves slave n n'
  with_fuel cs zero n rest ds enough ready fit plain wire room stand = absurd (omega arith)
  with_fuel [] (suc fuel) n rest ds enough (own, heap, bugger) fit plain
        (idle, more, quiet, wire, end) room stand =
      (
        taken slave n slave_data_query more n.mem,
        query_ends fuel n (taken slave n slave_data_query more n.mem) (in_bugger query)
            (receive_into_bugger_lem slave n query idle more n.mem own quiet wire (omega arith)
              (omega arith) (poke_nothing n.mem))
            refl,
        end,
        subst (StandFor n.mem n.next_block (sdk.items n.rx)) (sym (append-nil ds)) stand,
        refl,
        (
          (own, heap, bugger),
          omega arith,
          (λ k lo hi. refl),
          (λ ts below disjoint. disjoint),
          λ apart. apart,
        ),
      )
  with_fuel (c ∷ cs) (suc fuel) n rest ds enough ready (short, flags, fit) (one, plain)
        (idle, more, quiet, wire, later) room stand =
      let (n1, m, n2, (first, second, ready2, wire2, its, new, next, kept, flagged, at, _)) =
        deliver fifo roomy slave n c idle more ready short flags quiet wire (omega arith) in
      let grown : length (sdk.items n2.rx) ≡ length (sdk.items n.rx) + 1 =
        omega (arith, ap length its, length-append (sdk.items n.rx) (m ∷ [])) in
      let (n', run, out, stand', d, leaves) =
        with_fuel cs fuel n2 rest (ds ++ (c ∷ [])) (omega arith) ready2 fit plain
          (subst (Carries (cs ++ (query ∷ [])) rest) (sym wire2) later) (omega arith)
          (StandFor-next n.mem n2.mem n.next_block n2.next_block (sdk.items n.rx) (sdk.items n2.rx)
            m ds c its new next (λ k lo hi. kept k (omega arith) hi) stand) in
      (
        n',
        plain_goes_on fuel n n1 n2 n' (in_bugger c) m first
            (ap (λ f. has f slave_data_query) flagged ∙ one) second run,
        out,
        subst (StandFor n'.mem n'.next_block (sdk.items n'.rx)) (append_assoc ds (c ∷ []) cs)
            stand',
        d,
        Leaves-deliver slave n n2 n' m ds stand its next kept at leaves,
      )

  -- The slave's loop ends within the fuel that `sync` gives it: where the wire carries messages
  -- without the flag of a query and then a query, with idle bytes in front of each, it returns
  -- behind the query, and has queued all the messages behind what was queued, in the order of the
  -- wire, each with its flag and with its bytes in a block of its own. The queue and the heap have
  -- room, the slave's `bugger` is in place, its heap lies beyond the static blocks, what was queued
  -- is in such blocks, and every message fits `bugger` and 16 bits.
  pub receive_until_query_lem :
      (cs ds : List Content) (n : Node) (rest : List ℕ)
      → IsReady slave n
      → Fit cs
      → ArePlain cs
      → Carries (cs ++ (query ∷ [])) rest n.spi.wire_in
      → length (sdk.items n.rx) + length cs ≤ spi_queue_max_capacity
      → StandFor n.mem n.next_block (sdk.items n.rx) ds
      → (n' : Node) × (receive_until_query (suc (length n.spi.wire_in)) n ≡ (ok tt, n'))
        × (n'.spi.wire_in ≡ rest)
        × StandFor n'.mem n'.next_block (sdk.items n'.rx) (ds ++ cs)
  receive_until_query_lem cs ds n rest ready fit plain wire room stand =
      let (n', run, out, stand', _, _) =
        with_fuel cs (suc (length n.spi.wire_in)) n rest ds (enough_fuel cs n rest wire) ready fit
          plain wire room stand in
      (n', run, out, stand')
