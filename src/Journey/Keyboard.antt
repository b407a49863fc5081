-- ===== src/Journey/Keyboard.antt =====
-- A packet of a keyboard on its way from the device: the interrupt of the slave queues it, `sync`
-- on both microcontrollers carries it across, and the master refuses it.
use usbsec.Base.{
  ℕ, ◌+◌, ◌%◌, ◌≤◌, ◌<◌, ◌≡◌, ◌≢◌, ◌⊎◌, inl, inr, refl, ap, ◌∙◌, sym, subst, List, [], ◌∷◌, ◌++◌,
  some, true, length, take, arith, length-append,
}
use usbsec.Node.Sdk.{Sdk, IsFifo, Store, spi_queue_max_capacity}
use usbsec.Node.State.{Node, reading_response}
use usbsec.Node.Monad.{ok, stop, Stop}
use usbsec.Messages.{sync}
use usbsec.Messages.Contents.{Content, StandFor-one, Fit}
use usbsec.Messages.Exchange.{StandFor-length}
use usbsec.Messages.Outside.{sync-outside, outside_part}
use usbsec.Messages.Query.{ArePlain}
use usbsec.Messages.Round.Master.{IsMaster}
use usbsec.Messages.Round.Slave.{IsSlave}
use usbsec.Messages.Round.Whole.{AreWired, sync_lem}
use usbsec.Validator.{is_keyboard}
use usbsec.Drivers.{idx}
use usbsec.DeviceEvents.{handle_spi_slave_event}
use usbsec.DeviceEvents.Refusal.{IsReport, report_stops}
use usbsec.HostEvents.{hcd_event_xfer_complete}
use usbsec.HostEvents.Upstream.{length-sent}
use usbsec.HostEvents.Report.{report, report_flag, report_queued}

report_flag_lem :
    (result : ℕ)
    → (result ≡ 0) ⊎ (result ≡ 4)
    → (report_flag result < 65536) × IsReport (report_flag result)
report_flag_lem result (inl h) =
    subst (λ r. (report_flag r < 65536) × IsReport (report_flag r)) (sym h)
      (omega arith, (refl, refl, refl))
report_flag_lem result (inr h) =
    subst (λ r. (report_flag r < 65536) × IsReport (report_flag r)) (sym h)
      (omega arith, (refl, refl, refl))

module _ ⦃sdk : Sdk⦄ (fifo : IsFifo sdk)
    (roomy : (mem : Store) (k : ℕ) → sdk.malloc_fits mem k ≡ true) where
  -- a master that has the report of a keyboard as its first message stops
  refused_lem :
      (m m1 : Node) (a len result : ℕ) (buf : List ℕ)
      → sync m ≡ (ok tt, m1)
      → IsMaster m1 [] (report a len result buf ∷ [])
      → length buf ≡ 1000
      → len < 1000
      → (result ≡ 0) ⊎ (result ≡ 4)
      → idx a < 32
      → is_keyboard (m.drivers.itf_copy (idx a)) ≡ true
      → m.device.setup_response_dir ≡ reading_response
      → (m2 : Node) × (handle_spi_slave_event m1 ≡ (stop Stop.panic, m2))
        × (m2.regs ≡ m.regs)
        × (m2.usb ≡ m.usb)
  refused_lem m m1 a len result buf ran ready size small good place keyboard reading =
      let (msg, its, stands) =
        StandFor-one m1.mem m1.next_block (sdk.items m1.rx) (report a len result buf) ready.0.2 in
      let same : outside_part m1 ≡ outside_part m =
        ap (λ r. outside_part r.1) (sym ran) ∙ sync-outside m in
      let sent = length-sent len buf a (omega arith) in
      let short : length (take len buf) < 1000 =
        omega (arith, sent, length-append (take len buf) (a ∷ [])) in
      let (q, stops, _) =
        report_stops fifo m1 msg [] (report_flag result) a (take len buf) its stands short
          (report_flag_lem result good).1 (ap (λ o. o.6.setup_response_dir) same ∙ reading) place
          (ap (λ o. is_keyboard (o.4.itf_copy (idx a))) same ∙ keyboard) in
      (_, stops, ap (λ o. o.2) same, ap (λ o. o.3) same)

  -- Data that the device sends on an endpoint of a keyboard stops the master. The slave has no
  -- message to send yet, and the master none that it has received. The transfer completes, or a
  -- buffer of it, on an endpoint other than 0, with less than 1000 bytes; the interrupt of the
  -- slave and `sync` on both sides return, and on the wires is what the two sides read; then the
  -- master, which has the interface of a keyboard registered for the endpoint and is not answering
  -- a setup packet, panics at the message, with the registers and the endpoints of its USB
  -- controller as they were before. The two are ready for a round, with the wires between them, and
  -- there is room in the heaps and in the queue of the slave, whose messages from the master are no
  -- queries and fit.
  pub keyboard_travels :
      (m s : Node) (cs ds : List Content) (dev a len result : ℕ) (buf : List ℕ)
      → IsMaster m cs []
      → IsSlave s [] ds
      → AreWired m s cs (report a len result buf ∷ [])
      → Fit cs
      → ArePlain cs
      → length (sdk.items s.rx) + length cs ≤ spi_queue_max_capacity
      → s.mem 4 ≡ some buf
      → length buf ≡ 1000
      → len < 1000
      → (result ≡ 0) ⊎ (result ≡ 4)
      → a % 128 ≢ 0
      → idx a < 32
      → is_keyboard (m.drivers.itf_copy (idx a)) ≡ true
      → m.device.setup_response_dir ≡ reading_response
      → (s1 : Node) × (m1 : Node) × (s2 : Node) × (m2 : Node) × (hcd_event_xfer_complete dev a len
            result s
          ≡ (ok tt, s1))
        × (sync m ≡ (ok tt, m1))
        × (sync s1 ≡ (ok tt, s2))
        × (handle_spi_slave_event m1 ≡ (stop Stop.panic, m2))
        × (m1.spi.wire_out ≡ s1.spi.wire_in)
        × (s2.spi.wire_out ≡ m.spi.wire_in)
        × (m2.regs ≡ m.regs)
        × (m2.usb ≡ m.usb)
  keyboard_travels m s cs ds dev a len result buf ready_m ready_s wired fit plain room at size small
        good other place keyboard reading =
      let empty_s = StandFor-length s.mem s.next_block (sdk.items s.tx) [] ready_s.0.1 in
      let empty_m = StandFor-length m.mem m.next_block (sdk.items m.rx) [] ready_m.0.2 in
      let (s1, queued, (linked, few, spi)) =
        report_queued fifo roomy s [] ds dev a len result buf ready_s.0 (omega (arith, empty_s)) at
          size small good other in
      let same_s = StandFor-length s.mem s.next_block (sdk.items s.rx) ds ready_s.0.2 in
      let same_s1 = StandFor-length s1.mem s1.next_block (sdk.items s1.rx) ds linked.2 in
      let room_s : length (sdk.items s1.rx) + length cs ≤ spi_queue_max_capacity =
        omega (arith, same_s, same_s1, room) in
      let room_m : length (sdk.items m.rx) + 1 ≤ spi_queue_max_capacity = omega (arith, empty_m) in
      let fits : length (take len buf ++ (a ∷ [])) ≤ 1025 =
        omega (arith, length-sent len buf a (omega arith)) in
      let (m1, s2, ran_m, ran_s, out_m, out_s, _, _, after_m, _, _) =
        sync_lem fifo roomy m s1 cs (report a len result buf ∷ []) [] ds ready_m (linked, few)
          (ap (λ l. l.wire_in) spi ∙ wired.0, wired.1, wired.2, ap (λ l. l.wire_out) spi ∙ wired.3)
          fit (fits, (report_flag_lem result good).0, tt) plain room_m room_s in
      let (m2, stops, regs, usb) =
        refused_lem m m1 a len result buf ran_m after_m size small good place keyboard reading in
      (s1, m1, s2, m2, queued, ran_m, ran_s, stops, out_m, out_s, regs, usb)
