-- ===== src/Journey/Setup.antt =====
-- A setup packet on its way from the host to the device: the interrupt of the master queues it,
-- `sync` on both microcontrollers carries it across, and the slave hands it to its controller.
use usbsec.Base.{
  ℕ, ◌+◌, ◌*◌, ◌/◌, ◌%◌, ◌^◌, ◌==◌, if◌then◌else◌, ◌≤◌, ◌<◌, ◌≡◌, ◌≢◌, refl, ap, ◌∙◌, sym, List, [],
  ◌∷◌, ◌++◌, some, true, length, arith,
}
use usbsec.Node.Sdk.{Sdk, IsFifo, Pointer, Queue, Message, Store, spi_queue_max_capacity}
use usbsec.Node.State.{Node, master}
use usbsec.Node.Monad.{ok}
use usbsec.Node.Memory.{first_heap_block, fetch, device_setup}
use usbsec.Node.Memory.Copy.{set_block_self, fetch_whole}
use usbsec.Messages.{sync, tx, set_queue}
use usbsec.Messages.Contents.{Content, StandFor, StandFor-one, Fit}
use usbsec.Messages.Enqueue.{with_copy}
use usbsec.Messages.Queued.{enqueue_runs}
use usbsec.Messages.Exchange.{StandFor-length}
use usbsec.Messages.Outside.{sync-outside, outside_part}
use usbsec.Messages.Round.Master.{IsMaster}
use usbsec.Messages.Round.Slave.{IsSlave}
use usbsec.Messages.Round.Whole.{AreWired, sync_lem}
use usbsec.Messages.Linked.{static-IsLinked, enqueue-IsLinked}
use usbsec.DeviceEvents.{dcd_event_setup_received_new}
use usbsec.DeviceEvents.Setup.{IsRefused, taken, setup_enqueues}
use usbsec.HostEvents.{slavework}
use usbsec.HostEvents.SetupSent.{IsSent, HasUsb, setup_command, setup_content, slavework_sends}
use usbsec.Hcd.{sie_ctrl_base}
use usbsec.Regs.{sie_status}

setup_command_lem : (n k : Node) → n.regs ≡ k.regs → setup_command n ≡ setup_command k
setup_command_lem n k same =
    ap (λ r. sie_ctrl_base + 3 + (if r sie_status / 2 ^ 8 % 4 == 1 then 64 else 0)) same

HasUsb-static :
    (n n' : Node)
    → ((k : ℕ) → 1 < k → k < first_heap_block → n'.mem k ≡ n.mem k)
    → HasUsb n
    → HasUsb n'
HasUsb-static n n' static ((packet, at7, size7), (memory, at8, size8)) = (
  (packet, static 7 (omega arith) (omega arith) ∙ at7, size7),
  (memory, static 8 (omega arith) (omega arith) ∙ at8, size8),
)

module _ ⦃sdk : Sdk⦄ (fifo : IsFifo sdk)
    (roomy : (mem : Store) (k : ℕ) → sdk.malloc_fits mem k ≡ true) where
  -- the master after the interrupt: the packet is its only message, and the link is as it was
  setup_kept :
      (m : Node) (dm : List Content) (p : Pointer) (old : List ℕ) (b0 b1 b2 b3 b4 b5 b6 b7 : ℕ)
      → let bytes = b0 ∷ b1 ∷ b2 ∷ b3 ∷ b4 ∷ b5 ∷ b6 ∷ b7 ∷ [] in
        IsMaster m [] dm
        → fetch m.mem p 8 ≡ some bytes
        → m.mem 6 ≡ some old
        → length old ≡ 8
        → b1 ≢ 0x5
        → ¬ IsRefused b0 b1 (b2 + b3 * 256)
        → (q : Queue) × (dcd_event_setup_received_new p m
            ≡ (ok tt, set_queue tx q (with_copy (taken m bytes) bytes)))
          × IsMaster
              (set_queue tx q (with_copy (taken m bytes) bytes))
              (setup_content bytes ∷ [])
              dm
  setup_kept m dm p old b0 b1 b2 b3 b4 b5 b6 b7 ready h room len other passed =
      let bytes = b0 ∷ b1 ∷ b2 ∷ b3 ∷ b4 ∷ b5 ∷ b6 ∷ b7 ∷ [] in
      let m1 = taken m bytes in
      let message : Message = record {
        e_flag = 0x8002;
        payload_length = 8;
        payload = device_setup;
      } in
      let none_yet = StandFor-length m.mem m.next_block (sdk.items m.tx) [] ready.0.1 in
      let (q, runs, its) =
        enqueue_runs fifo message m1 bytes ready.0.0.1 (omega (arith, ready.0.0.1)) (roomy m1.mem 8)
          refl (fetch_whole m1.mem 6 bytes (set_block_self m.mem 6 (some bytes)))
          (omega (arith, none_yet)) in
      (
        q,
        setup_enqueues p m old b0 b1 b2 b3 b4 b5 b6 b7 ready.1 h room len other passed ∙ runs,
        (
          enqueue-IsLinked master m1 [] dm message bytes q refl its
              (static-IsLinked master m [] dm 6 bytes (omega arith) (omega arith) ready.0),
          ready.1,
          ready.2,
          ready.3,
        ),
      )

  -- a slave that has the packet as its first message hands it to the controller
  arrived_lem :
      (s s1 : Node) (bytes : List ℕ)
      → sync s ≡ (ok tt, s1)
      → StandFor s1.mem s1.next_block (sdk.items s1.rx) (setup_content bytes ∷ [])
      → length bytes ≡ 8
      → HasUsb s1
      → (s2 : Node) × (slavework s1 ≡ (ok tt, s2))
        × IsSent s.host.dev_addr bytes s s2
        × (sdk.items s2.rx ≡ [])
  arrived_lem s s1 bytes ran stand eight usb =
      let (m, its, stands) =
        StandFor-one s1.mem s1.next_block (sdk.items s1.rx) (setup_content bytes) stand in
      let (s2, runs, (packet, addr, ctrl), _, _, rest) =
        slavework_sends fifo s1 m [] bytes its stands eight usb in
      let same : outside_part s1 ≡ outside_part s =
        ap (λ r. outside_part r.1) (sym ran) ∙ sync-outside s in
      (
        s2,
        runs,
        (
          packet,
          addr ∙ ap (λ o. o.7.dev_addr) same,
          ctrl ∙ setup_command_lem s1 s (ap (λ o. o.2) same),
        ),
        rest,
      )

  -- A setup packet of the host is passed on to the device. The master has no message yet, the
  -- slave any number of them, and the packet is not SET_ADDRESS nor one that the master answers
  -- itself. The interrupt of the master, `sync` on both sides and `slavework` all return, each in
  -- the state that the one before it leaves; on the wires is what the two sides read; then the
  -- controller of the slave is told to send the eight bytes that the host had sent, in their
  -- order, to the address that the slave has given the device; the slave has no message left, and
  -- the master is ready for another round, with the messages of the slave behind those it had
  -- received. At first the two are ready for a round, with the wires between them, and have room
  -- in their heaps and in the queue of the master.
  pub setup_travels :
      (m s : Node) (es dm : List Content) (p : Pointer) (old : List ℕ) (b0 b1 b2 b3 b4 b5 b6 b7 : ℕ)
      → let bytes = b0 ∷ b1 ∷ b2 ∷ b3 ∷ b4 ∷ b5 ∷ b6 ∷ b7 ∷ [] in
        IsMaster m [] dm
        → IsSlave s es []
        → AreWired m s (setup_content bytes ∷ []) es
        → Fit es
        → length (sdk.items m.rx) + length es ≤ spi_queue_max_capacity
        → fetch m.mem p 8 ≡ some bytes
        → m.mem 6 ≡ some old
        → length old ≡ 8
        → b1 ≢ 0x5
        → ¬ IsRefused b0 b1 (b2 + b3 * 256)
        → HasUsb s
        → (m1 : Node) × (m2 : Node) × (s1 : Node) × (s2 : Node) × (dcd_event_setup_received_new p m
            ≡ (ok tt, m1))
          × (sync m1 ≡ (ok tt, m2))
          × (sync s ≡ (ok tt, s1))
          × (slavework s1 ≡ (ok tt, s2))
          × (m2.spi.wire_out ≡ s.spi.wire_in)
          × (s1.spi.wire_out ≡ m1.spi.wire_in)
          × IsSent s.host.dev_addr bytes s s2
          × (sdk.items s2.rx ≡ [])
          × IsMaster m2 [] (dm ++ es)
  setup_travels m s es dm p old b0 b1 b2 b3 b4 b5 b6 b7 ready_m ready_s wired fit room h at len
        other passed usb =
      let bytes = b0 ∷ b1 ∷ b2 ∷ b3 ∷ b4 ∷ b5 ∷ b6 ∷ b7 ∷ [] in
      let (q, queued, master1) =
        setup_kept m dm p old b0 b1 b2 b3 b4 b5 b6 b7 ready_m h at len other passed in
      let m1 = set_queue tx q (with_copy (taken m bytes) bytes) in
      let room_s : length (sdk.items s.rx) + 1 ≤ spi_queue_max_capacity =
        omega (arith, StandFor-length s.mem s.next_block (sdk.items s.rx) [] ready_s.0.2) in
      let fits : 8 ≤ 1025 = omega arith in
      let small : 0x8002 < 65536 = omega arith in
      let (m2, s1, ran_m, ran_s, out_m, out_s, _, _, after_m, after_s, static) =
        sync_lem fifo roomy m1 s (setup_content bytes ∷ []) es dm [] master1 ready_s wired
          (fits, small, tt) fit (refl, tt) room room_s in
      let (s2, worked, sent, rest) =
        arrived_lem s s1 bytes ran_s after_s.0.2 refl (HasUsb-static s s1 static usb) in
      (m1, m2, s1, s2, queued, ran_m, ran_s, worked, out_m, out_s, sent, rest, after_m)
