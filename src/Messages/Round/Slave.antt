-- ===== src/Messages/Round/Slave.antt =====
-- The slave's part of a round of `sync`.
use usbsec.Base.{
  ℕ, suc, ◌+◌, ◌%◌, ◌≤◌, ◌<◌, ◌≡◌, refl, some, true, List, [], ◌∷◌, ◌++◌, length, ap, ◌∙◌, arith,
  append_assoc, subst, sym,
}
use usbsec.Node.Sdk.{Sdk, IsFifo, spi_queue_max_capacity, Store}
use usbsec.Node.State.{Node, slave}
use usbsec.Node.Monad.{ok}
use usbsec.Node.Memory.{messages_bugger, poke, fetch, load_byte, store, first_heap_block}
use usbsec.Node.Memory.Copy.{poke_front}
use usbsec.Node.Memory.Bytes.{load_byte-fetched}
use usbsec.Spi.Frame.{frame}
use usbsec.Spi.Transfer.{sent, send_lem}
use usbsec.Messages.{receive_until_query, send_message, send_count, sync, sync_slave}
use usbsec.Messages.Linked.{IsLinked, nothing_to_send}
use usbsec.Messages.Contents.{
  Content, Carries, StandFor, StandFor-disjoint, StandFor-heap, StandFor-AreBelow, static-NotAmong,
  AreApart, AreDisjoint, Fit,
}
use usbsec.Messages.Send.{frames, send_count_lem}
use usbsec.Messages.Query.{query, ArePlain, with_fuel, enough_fuel}
use usbsec.Messages.Exchange.{frames-Carries, StandFor-length}
use usbsec.Messages.Untouched.{receive_until_query-same, send_count-same}
use usbsec.Messages.Round.Answer.{announced}
use usbsec.Messages.Round.Master.{signal, lower}

module _ ⦃sdk : Sdk⦄ where
  slave_runs :
      (n n1 n2 n3 n' : Node) (count : ℕ)
      → n.role ≡ slave
      → receive_until_query (suc (length n.spi.wire_in)) (signal n) ≡ (ok tt, n1)
      → store messages_bugger (sdk.queue_level n1.tx % 256 ∷ []) (lower n1) ≡ (ok tt, n2)
      → load_byte messages_bugger n2 ≡ (ok count, n2)
      → send_message messages_bugger 1 0 n2 ≡ (ok tt, n3)
      → send_count count n3 ≡ (ok tt, n')
      → sync n ≡ (ok tt, n')
  unfolding sync sync_slave
  slave_runs n n1 n2 n3 n' count role e1 e2 e3 e4 e5 = ground (arith, e1, e2, e3, e4, e5)

count_sent :
    (n : Node) (count : ℕ)
    → n.role ≡ slave
    → n.spi.dummy ≡ 0xff
    → fetch n.mem messages_bugger 1 ≡ some (count ∷ [])
    → send_message messages_bugger 1 0 n
      ≡ (ok tt, sent n 0 (n.spi.wire_out ++ frame (count ∷ []) 0))
unfolding send_message
count_sent n count role d read = ground (arith, send_lem messages_bugger 0 n (count ∷ []) d read)

stored_lem :
    (n : Node) (b : ℕ) (mem : Store)
    → poke n.mem messages_bugger (b ∷ []) ≡ some mem
    → store messages_bugger (b ∷ []) n ≡ (ok tt, record n { mem = mem })
unfolding store
stored_lem n b mem poked = ground arith

-- A slave that is about to start a round: `bugger` is in place, and its two queues stand for
-- messages in blocks of their own.
abbrev pub IsSlave : ⦃sdk : Sdk⦄ → Node → List Content → List Content → Type 0
IsSlave ⦃sdk⦄ n es ds = IsLinked slave n es ds × (length (sdk.items n.tx) ≤ spi_queue_max_capacity)

module _ ⦃sdk : Sdk⦄ (fifo : IsFifo sdk)
    (roomy : (mem : Store) (k : ℕ) → sdk.malloc_fits mem k ≡ true) where
  -- the first half: the messages of the master
  abbrev Heard : Node → List Content → List Content → List Content → List ℕ → Node → Type 0
  Heard n cs es ds rest n1 =
      (receive_until_query (suc (length n.spi.wire_in)) (signal n) ≡ (ok tt, n1))
      × IsSlave n1 es (ds ++ cs)
      × (n1.spi.dummy ≡ 0xff)
      × (n1.spi.wire_in ≡ rest)
      × (n1.spi.wire_out ≡ n.spi.wire_out)
      × ((k : ℕ) → 1 < k → k < n.next_block → n1.mem k ≡ n.mem k)

  heard_lem :
      (n : Node) (cs es ds : List Content) (rest : List ℕ)
      → IsSlave n es ds
      → Fit cs
      → ArePlain cs
      → length (sdk.items n.rx) + length cs ≤ spi_queue_max_capacity
      → n.spi.wire_in ≡ frames (cs ++ (query ∷ [])) ++ rest
      → (n1 : Node) × Heard n cs es ds rest n1
  heard_lem n cs es ds rest ((ready, stand_tx, stand_rx, apart_tx, apart_rx, disjoint), few) fit
        plain room wire =
      let carried =
        subst (Carries (cs ++ (query ∷ [])) rest) (sym wire)
          (frames-Carries (cs ++ (query ∷ [])) rest) in
      let fuel = suc (length n.spi.wire_in) in
      let (n1, runs, out, stand', d, (ready', le, kept, others, kept_apart)) =
        with_fuel fifo roomy cs fuel (signal n) rest ds (enough_fuel cs (signal n) rest carried)
          ready fit plain carried room stand_rx in
      let same = receive_until_query-same fuel (signal n) n1 runs in
      let tx_same : n.tx ≡ n1.tx = ap (λ r. r.2) (sym same) in
      (
        n1,
        (
          runs,
          (
            (
              ready',
              subst (λ q. StandFor n1.mem n1.next_block (sdk.items q) es) tx_same
                  (StandFor-heap n.mem n1.mem n.next_block n1.next_block (sdk.items n.tx) es
                    (λ k lo hi. kept k (omega arith) hi) le stand_tx),
              stand',
              subst (λ q. AreApart (sdk.items q)) tx_same apart_tx,
              kept_apart apart_rx,
              subst (λ q. AreDisjoint (sdk.items n1.rx) (sdk.items q)) tx_same
                  (others (sdk.items n.tx)
                    (StandFor-AreBelow n.mem n.next_block (sdk.items n.tx) es stand_tx) disjoint),
            ),
            subst (λ q. length (sdk.items q) ≤ spi_queue_max_capacity) tx_same few,
          ),
          d,
          out,
          ap (λ r. r.3) same,
          kept,
        ),
      )

  -- the second half: the count, and the messages of the slave
  abbrev Spoken : Node → List Content → List Content → Node → Node → Node → Type 0
  Spoken n es ds n2 n3 n' =
      (store messages_bugger (sdk.queue_level n.tx % 256 ∷ []) (lower n) ≡ (ok tt, n2))
      × (load_byte messages_bugger n2 ≡ (ok (length es), n2))
      × (send_message messages_bugger 1 0 n2 ≡ (ok tt, n3))
      × (send_count (length es) n3 ≡ (ok tt, n'))
      × (n'.spi.wire_out ≡ n.spi.wire_out ++ frames (announced es ∷ es))
      × (n'.spi.wire_in ≡ n.spi.wire_in)
      × IsSlave n' [] ds
      × ((k : ℕ) → 1 < k → k < first_heap_block → n'.mem k ≡ n.mem k)

  spoken_lem :
      (n : Node) (es ds : List Content)
      → IsSlave n es ds
      → n.spi.dummy ≡ 0xff
      → (n2 : Node) × (n3 : Node) × (n' : Node) × Spoken n es ds n2 n3 n'
  spoken_lem n es ds
        (((own, heap, (old, at, size)), stand_tx, stand_rx, apart, apart_rx, disjoint), few) d =
      let ts = sdk.items n.tx in
      let same_length = StandFor-length n.mem n.next_block ts es stand_tx in
      let count : sdk.queue_level n.tx % 256 ≡ length es =
        omega (arith, fifo.queue_level_lem n.tx, same_length) in
      let (mem, poked, read, other, (new, at', len)) =
        poke_front n.mem 1 old (length es ∷ []) at (omega arith) in
      let n2 = record (lower n) { mem = mem } in
      let out = n.spi.wire_out ++ frame (length es ∷ []) 0 in
      let n3 = sent n2 0 out in
      let on_heap =
        λ (k : ℕ) (lo : first_heap_block ≤ k) (hi : k < n.next_block). other k (omega arith) in
      let (n', runs, wire, empty, _, kept) =
        send_count_lem fifo ts es n3 refl d
          (StandFor-heap n.mem mem n.next_block n.next_block ts es on_heap (omega arith) stand_tx)
          apart in
      let same = send_count-same (length ts) n3 n' runs in
      (
        n2,
        n3,
        n',
        (
          ap (λ c. store messages_bugger (c ∷ []) (lower n)) count
              ∙ stored_lem (lower n) (length es) mem poked,
          load_byte-fetched messages_bugger n2 (length es) read,
          count_sent n2 (length es) own d read,
          ap (λ k. send_count k n3) (sym same_length) ∙ runs,
          wire ∙ append_assoc n.spi.wire_out (frame (length es ∷ []) 0) (frames es),
          ap (λ r. r.5) same,
          (
            nothing_to_send slave n' ds
                (
                  ap (λ r. r.0) same ∙ own,
                  omega (arith, ap (λ r. r.3) same),
                  (
                    new,
                    kept 1 (static-NotAmong n.mem n.next_block 1 ts es (omega arith) stand_tx)
                        ∙ at',
                    len ∙ size,
                  ),
                )
                empty
                (subst (λ q. StandFor n'.mem n'.next_block (sdk.items q) ds)
                  (sym (ap (λ r. r.2) same))
                  (subst (λ b. StandFor n'.mem b (sdk.items n.rx) ds) (sym (ap (λ r. r.3) same))
                    (StandFor-disjoint mem n'.mem n.next_block (sdk.items n.rx) ts ds kept disjoint
                      (StandFor-heap n.mem mem n.next_block n.next_block (sdk.items n.rx) ds on_heap
                        (omega arith) stand_rx))))
                (subst (λ q. AreApart (sdk.items q)) (sym (ap (λ r. r.2) same)) apart_rx),
            omega (arith, ap length empty),
          ),
          λ k lo hi.
              kept k (static-NotAmong n.mem n.next_block k ts es hi stand_tx)
              ∙ other k (omega arith),
        ),
      )

  pub round-IsSlave :
      (n : Node) (cs es ds : List Content) (rest : List ℕ)
      → IsSlave n es ds
      → Fit cs
      → ArePlain cs
      → length (sdk.items n.rx) + length cs ≤ spi_queue_max_capacity
      → n.spi.wire_in ≡ frames (cs ++ (query ∷ [])) ++ rest
      → (n' : Node) × (sync n ≡ (ok tt, n'))
        × (n'.spi.wire_out ≡ n.spi.wire_out ++ frames (announced es ∷ es))
        × (n'.spi.wire_in ≡ rest)
        × IsSlave n' [] (ds ++ cs)
        × ((k : ℕ) → 1 < k → k < first_heap_block → n'.mem k ≡ n.mem k)
  round-IsSlave n cs es ds rest start fit plain room wire =
      let (n1, (e1, start1, d, left, silent, same)) =
        heard_lem n cs es ds rest start fit plain room wire in
      let (n2, n3, n', (e2, e3, e4, e5, out, in_same, start', same')) =
        spoken_lem n1 es (ds ++ cs) start1 d in
      (
        n',
        slave_runs n n1 n2 n3 n' (length es) start.0.0.0 e1 e2 e3 e4 e5,
        out ∙ ap (λ w. w ++ frames (announced es ∷ es)) silent,
        in_same ∙ left,
        start',
        λ k lo hi. same' k lo hi ∙ same k lo (omega (arith, start.0.0.1)),
      )
