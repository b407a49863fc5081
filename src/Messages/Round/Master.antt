-- ===== src/Messages/Round/Master.antt =====
-- The master's part of a round of `sync`.
use usbsec.Base.{
  ℕ, suc, ◌+◌, ◌≤◌, ◌<◌, ◌≡◌, refl, true, false, List, [], ◌∷◌, ◌++◌, length, ap, ◌∙◌, arith,
  append_assoc, subst, sym,
}
use usbsec.Node.Sdk.{Sdk, IsFifo, spi_queue_max_capacity, null, Store}
use usbsec.Node.State.{Node, master, Event}
use usbsec.Node.Monad.{ok, runtime_assert}
use usbsec.Node.Memory.{messages_bugger, fetch, load_byte}
use usbsec.Spi.Frame.{frame}
use usbsec.Spi.Transfer.{sent, send_lem}
use usbsec.Messages.{
  gpio_slave_device_attached_pin, gpio_slave_waiting_pin, send_all, send_message, recieve_message,
  receive_count, sync, sync_master,
}
use usbsec.Messages.MsgType.{slave_data_query}
use usbsec.Messages.Linked.{IsLinked, nothing_to_send}
use usbsec.Messages.Outside.{sync-outside}
use usbsec.Messages.Contents.{Content, StandFor, StandFor-disjoint, AreApart, Fit, static-NotAmong}
use usbsec.Messages.Send.{frames}
use usbsec.Messages.SendAll.{send_all_lem}
use usbsec.Messages.Query.{query}
use usbsec.Messages.Deliver.{IsReady}
use usbsec.Messages.Untouched.{send_all-same}
use usbsec.Messages.Round.Answer.{announced, answered_lem}

abbrev pub signal : Node → Node
signal n = record n { events = Event.gpio_put 6 true ∷ n.events }

abbrev pub lower : Node → Node
lower n = record n { events = Event.gpio_put 6 false ∷ n.events }

module _ ⦃sdk : Sdk⦄ where
  master_runs :
      (n n1 n3 n4 n5 : Node) (count : ℕ)
      → n.role ≡ master
      → n.pin gpio_slave_device_attached_pin ≡ true
      → send_all (suc (sdk.queue_level n.tx)) (signal n) ≡ (ok tt, n1)
      → send_message null 0 slave_data_query (lower n1) ≡ (ok tt, n3)
      → recieve_message messages_bugger n3 ≡ (ok 1, n4)
      → load_byte messages_bugger n4 ≡ (ok count, n4)
      → receive_count count n4 ≡ (ok tt, n5)
      → sync n ≡ (ok tt, n5)
  unfolding sync sync_master runtime_assert
  master_runs n n1 n3 n4 n5 count role attached e1 e2 e3 e4 e5 = ground (arith, e1, e2, e3, e4, e5)

query_sent :
    (n : Node)
    → n.role ≡ master
    → n.pin gpio_slave_waiting_pin ≡ true
    → n.spi.dummy ≡ 0xff
    → send_message null 0 slave_data_query n
      ≡ (ok tt, sent n slave_data_query (n.spi.wire_out ++ frame [] slave_data_query))
unfolding send_message fetch
query_sent n role waiting d = ground (arith, send_lem null slave_data_query n [] d refl)

frames-query :
    (cs : List Content) → frames cs ++ frame [] slave_data_query ≡ frames (cs ++ (query ∷ []))
frames-query [] = refl
frames-query (c ∷ cs) =
    append_assoc (frame c.bytes c.flag) (frames cs) (frame [] slave_data_query)
    ∙ ap (λ w. frame c.bytes c.flag ++ w) (frames-query cs)

-- A master that is about to start a round: the slave is there and waits, its link is ready to
-- transmit, `bugger` is in place, and its two queues stand for messages in blocks of their own.
abbrev pub IsMaster : ⦃sdk : Sdk⦄ → Node → List Content → List Content → Type 0
IsMaster ⦃sdk⦄ n cs ds =
    IsLinked master n cs ds
    × (n.pin gpio_slave_device_attached_pin ≡ true)
    × (n.pin gpio_slave_waiting_pin ≡ true)
    × (n.spi.dummy ≡ 0xff)

module _ ⦃sdk : Sdk⦄ (fifo : IsFifo sdk)
    (roomy : (mem : Store) (k : ℕ) → sdk.malloc_fits mem k ≡ true) where
  -- the first half: the messages of the master, and the query
  abbrev Asked : Node → List Content → List Content → Node → Node → Type 0
  Asked n cs ds n1 n3 =
      (send_all (suc (sdk.queue_level n.tx)) (signal n) ≡ (ok tt, n1))
      × (send_message null 0 slave_data_query (lower n1) ≡ (ok tt, n3))
      × IsReady master n3
      × (n3.spi.wire_out ≡ (n.spi.wire_out ++ frames cs) ++ frame [] slave_data_query)
      × (n3.spi.wire_in ≡ n.spi.wire_in)
      × (sdk.items n3.tx ≡ [])
      × (n3.rx ≡ n.rx)
      × StandFor n3.mem n3.next_block (sdk.items n3.rx) ds

  asked_lem :
      (n : Node) (cs ds : List Content)
      → IsMaster n cs ds
      → (n1 : Node) × (n3 : Node) × Asked n cs ds n1 n3
  asked_lem n cs ds
        (
          ((own, heap, (old, at, size)), stand_tx, stand_rx, apart, _, disjoint),
          attached,
          waiting,
          d,
        ) =
      let ts = sdk.items n.tx in
      let (n1, runs, out, empty, _, kept) =
        send_all_lem fifo (suc (sdk.queue_level n.tx)) ts cs (signal n)
          (omega (arith, fifo.queue_level_lem n.tx)) refl own waiting d stand_tx apart in
      let same = send_all-same (suc (sdk.queue_level n.tx)) (signal n) n1 runs in
      let role : n1.role ≡ master = ap (λ r. r.0) same ∙ own in
      let next : n1.next_block ≡ n.next_block = ap (λ r. r.3) same in
      let rx_same : n1.rx ≡ n.rx = ap (λ r. r.2) same in
      (
        n1,
        sent (lower n1) slave_data_query (n1.spi.wire_out ++ frame [] slave_data_query),
        (
          runs,
          query_sent (lower n1) role (ap (λ r. r.1 gpio_slave_waiting_pin) same ∙ waiting)
              (ap (λ r. r.4) same ∙ d),
          (
            role,
            omega (arith, next),
            (
              old,
              kept 1 (static-NotAmong n.mem n.next_block 1 ts cs (omega arith) stand_tx) ∙ at,
              size,
            ),
          ),
          ap (λ w. w ++ frame [] slave_data_query) out,
          ap (λ r. r.5) same,
          empty,
          rx_same,
          subst (λ q. StandFor n1.mem n1.next_block (sdk.items q) ds) (sym rx_same)
              (subst (λ b. StandFor n1.mem b (sdk.items n.rx) ds) (sym next)
                (StandFor-disjoint n.mem n1.mem n.next_block (sdk.items n.rx) ts ds kept disjoint
                  stand_rx)),
        ),
      )

  -- A master that starts a round.
  pub round-IsMaster :
      (n : Node) (cs es ds : List Content) (rest : List ℕ)
      → IsMaster n cs ds
      → Fit es
      → length es < 256
      → length (sdk.items n.rx) + length es ≤ spi_queue_max_capacity
      → n.spi.wire_in ≡ frames (announced es ∷ es) ++ rest
      → (n' : Node) × (sync n ≡ (ok tt, n'))
        × (n'.spi.wire_out ≡ n.spi.wire_out ++ frames (cs ++ (query ∷ [])))
        × (n'.spi.wire_in ≡ rest)
        × IsMaster n' [] (ds ++ es)
  round-IsMaster n cs es ds rest start fit few room wire =
      let (n1, n3, (e1, e2, ready, out, in_same, empty, rx_same, stand)) =
        asked_lem n cs ds start in
      let (n4, n', (e3, e4, e5, same, left, stand', ready', d, apart)) =
        answered_lem fifo roomy n3 es ds rest ready fit few
          (subst (λ q. length (sdk.items q) + length es ≤ spi_queue_max_capacity) (sym rx_same)
            room)
          (in_same ∙ wire) stand (subst (λ q. AreApart (sdk.items q)) (sym rx_same) start.0.4) in
      let runs : sync n ≡ (ok tt, n') =
        master_runs n n1 n3 n4 n' (length es) start.0.0.0 start.1 e1 e2 e3 e4 e5 in
      let pins : n'.pin ≡ n.pin = ap (λ r. r.1.pin) (sym runs) ∙ ap (λ o. o.1) (sync-outside n) in
      (
        n',
        runs,
        ap (λ r. r.3) same
            ∙ (out
                ∙ (append_assoc n.spi.wire_out (frames cs) (frame [] slave_data_query)
                    ∙ ap (λ w. n.spi.wire_out ++ w) (frames-query cs))),
        left,
        (
          nothing_to_send master n' (ds ++ es) ready' (ap (λ r. sdk.items r.2) same ∙ empty) stand'
              apart,
          ap (λ p. p gpio_slave_device_attached_pin) pins ∙ start.1,
          ap (λ p. p gpio_slave_waiting_pin) pins ∙ start.2,
          d,
        ),
      )
