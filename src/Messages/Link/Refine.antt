-- ===== src/Messages/Link/Refine.antt =====
-- The link is two queues of messages: whatever the two microcontrollers do with it, one call after
-- another, ends as it is meant to.
use usbsec.Base.{
  ℕ, ◌+◌, ◌≤◌, ◌≡◌, refl, true, false, List, [], ◌∷◌, ◌++◌, length, ap, ◌∙◌, arith, has,
}
use usbsec.Node.Sdk.{Sdk, IsFifo, Store, spi_queue_max_capacity}
use usbsec.Node.State.{Node, master, slave}
use usbsec.Messages.MsgType.{slave_data_query}
use usbsec.Messages.Contents.{Content, Fit}
use usbsec.Messages.Send.{frames}
use usbsec.Messages.Query.{query, ArePlain}
use usbsec.Messages.Exchange.{StandFor-length}
use usbsec.Messages.Round.Answer.{announced}
use usbsec.Messages.Round.Master.{IsMaster}
use usbsec.Messages.Round.Slave.{IsSlave}
use usbsec.Messages.Round.Whole.{sync_lem}
use usbsec.Messages.Link.{
  Mail, Act, ask, answer, slave_takes, master_takes, round, meant, all_meant, IsFit, IsAllowed,
  AreAllowed, Step, asked, answered, slave_took, master_took, synced, Steps, done, then_do, wired,
}
use usbsec.Messages.Link.Ends.{post_lem, take_lem, posted}

-- The two microcontrollers hold these messages, and what is queued fits.
abbrev pub Hold : ⦃sdk : Sdk⦄ → Mail → Node → Node → Type 0
Hold v m s =
    IsMaster m v.asks v.at_master
    × IsSlave s v.answers v.at_slave
    × Fit v.asks
    × Fit v.answers
    × ArePlain v.asks

Fit-append : (cs : List Content) (c : Content) → Fit cs → IsFit c → Fit (cs ++ (c ∷ []))
Fit-append [] c fit (short, flags) = (short, flags, tt)
Fit-append (k ∷ cs) c (short, flags, fit) one = (short, flags, Fit-append cs c fit one)

ArePlain-append :
    (cs : List Content) (c : Content)
    → ArePlain cs
    → has c.flag slave_data_query ≡ false
    → ArePlain (cs ++ (c ∷ []))
ArePlain-append [] c plain one = (one, tt)
ArePlain-append (k ∷ cs) c (first, plain) one = (first, ArePlain-append cs c plain one)

module _ ⦃sdk : Sdk⦄ (fifo : IsFifo sdk)
    (roomy : (mem : Store) (k : ℕ) → sdk.malloc_fits mem k ≡ true) where
  abbrev Leads : Act → Mail → Node → Node → Type 0
  Leads a v m s = (m' : Node) × (s' : Node) × Step a m s m' s' × Hold (meant a v) m' s'

  round_lem : (v : Mail) (m s : Node) → Hold v m s → IsAllowed round v → Leads round v m s
  unfolding meant
  round_lem v m s (at_m, at_s, fit_m, fit_s, plain) (room_s, room_m) =
      let count_m = StandFor-length m.mem m.next_block (sdk.items m.rx) v.at_master at_m.0.2 in
      let count_s = StandFor-length s.mem s.next_block (sdk.items s.rx) v.at_slave at_s.0.2 in
      let to_slave = frames (v.asks ++ (query ∷ [])) in
      let to_master = frames (announced v.answers ∷ v.answers) in
      let space_m : length (sdk.items m.rx) + length v.answers ≤ spi_queue_max_capacity =
        omega (arith, count_m, room_m) in
      let space_s : length (sdk.items s.rx) + length v.asks ≤ spi_queue_max_capacity =
        omega (arith, count_s, room_s) in
      let (m', s', ran_m, ran_s, out_m, out_s, left_m, left_s, after_m, after_s, _) =
        sync_lem fifo roomy (wired to_master m) (wired to_slave s) v.asks v.answers v.at_master
          v.at_slave at_m at_s (refl, refl, refl, refl) fit_m fit_s plain space_m space_s in
      (
        m',
        s',
        synced to_master to_slave ran_m ran_s out_m out_s left_m left_s,
        (after_m, after_s, tt, tt, tt),
      )

  step_lem : (a : Act) (v : Mail) (m s : Node) → Hold v m s → IsAllowed a v → Leads a v m s
  unfolding meant
  step_lem (ask c) v m s ((linked, attached, waiting, d), at_s, fit_m, fit_s, plain)
        (short, one, room) =
      let count = StandFor-length m.mem m.next_block (sdk.items m.tx) v.asks linked.1 in
      let (q, ran, after, _) =
        post_lem fifo roomy master m v.asks v.at_master c linked (omega (arith, count, room)) in
      (
        posted m q c,
        s,
        asked ran,
        (
          (after, attached, waiting, d),
          at_s,
          Fit-append v.asks c fit_m short,
          fit_s,
          ArePlain-append v.asks c plain one,
        ),
      )
  step_lem (answer c) v m s (at_m, (linked, few), fit_m, fit_s, plain) (short, room) =
      let count = StandFor-length s.mem s.next_block (sdk.items s.tx) v.answers linked.1 in
      let (q, ran, after, few') =
        post_lem fifo roomy slave s v.answers v.at_slave c linked (omega (arith, count, room)) in
      (
        m,
        posted s q c,
        answered ran,
        (at_m, (after, few'), fit_m, Fit-append v.answers c fit_s short, plain),
      )
  step_lem slave_takes v m s (at_m, (linked, few), fit_m, fit_s, plain) _ =
      let (s', (ran, after, _, tx_same, _)) =
        take_lem fifo roomy slave s v.answers v.at_slave linked in
      (
        m,
        s',
        slave_took ran,
        (
          at_m,
          (after, omega (arith, ap (λ q. length (sdk.items q)) tx_same, few)),
          fit_m,
          fit_s,
          plain,
        ),
      )
  step_lem master_takes v m s ((linked, attached, waiting, d), at_s, fit_m, fit_s, plain) _ =
      let (m', (ran, after, pins, _, spi)) =
        take_lem fifo roomy master m v.asks v.at_master linked in
      (
        m',
        s,
        master_took ran,
        (
          (
            after,
            ap (λ p. p 15) pins ∙ attached,
            ap (λ p. p 14) pins ∙ waiting,
            ap (λ l. l.dummy) spi ∙ d,
          ),
          at_s,
          fit_m,
          fit_s,
          plain,
        ),
      )
  step_lem round v m s hold allowed = round_lem v m s hold allowed

  -- Any history of calls at the two ends of the link, that never waits for room, comes out as the
  -- queues of its description: at its end the two microcontrollers hold the messages that they are
  -- meant to, in order and with their flags and bytes. The calls are: either side queues a message
  -- of local variables, which fits 16 bits and `bugger`; either side takes the first message that
  -- it has received and frees it, or finds that there is none; and a round of `sync` on both, in
  -- which each side reads exactly what the other sends. Every call returns. The slave is attached
  -- and waits, there is room in the heaps, and no message of the master has the flag of the query.
  pub link_refines :
      (acts : List Act) (v : Mail) (m s : Node)
      → Hold v m s
      → AreAllowed acts v
      → (m' : Node) × (s' : Node) × Steps acts m s m' s' × Hold (all_meant acts v) m' s'
  unfolding all_meant
  link_refines [] v m s hold allowed = (m, s, done, hold)
  link_refines (a ∷ acts) v m s hold (first, later) =
      let (m1, s1, step, hold1) = step_lem a v m s hold first in
      let (m2, s2, steps, hold2) = link_refines acts (meant a v) m1 s1 hold1 later in
      (m2, s2, then_do step steps, hold2)
