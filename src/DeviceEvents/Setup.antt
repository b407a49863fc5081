-- ===== src/DeviceEvents/Setup.antt =====
-- Which setup packets of the host reach the slave.
use usbsec.Base.{
  ℕ, ◌+◌, ◌*◌, ◌≡◌, ◌≢◌, ◌≤◌, ◌<◌, ◌⊎◌, inl, inr, refl, ap, ◌∙◌, List, [], ◌∷◌, some, true, length,
  drop, arith,
}
use usbsec.Node.Sdk.{Sdk, IsFifo, spi_queue_max_capacity, Pointer, null, Queue}
use usbsec.Node.State.{Node}
use usbsec.Node.Monad.{ok, pure, ◌>>◌}
use usbsec.Node.Memory.{
  first_heap_block, fetch, poke, load, store, memcpy, load_byte, load_u16, device_setup, set_block,
}
use usbsec.Messages.MsgType.{chg_addr}
use usbsec.Messages.Queued.{IsQueued, enqueue_lem}
use usbsec.Node.Keeps.{Keeps}
use usbsec.Endpoint.Frame.{IsApart, leaves, hw_endpoint_xfer_start-Keeps}
use usbsec.Dcd.{dcd_edpt_xfer_new, hw_endpoint_xfer}
use usbsec.Node.Memory.Copy.{set_block_self, fetch_whole}
use usbsec.Messages.{enqueue_spi_message, gpio_slave_device_attached_pin}
use usbsec.DeviceEvents.{
  dcd_event_setup_received_new, bm_request_type, b_request, w_value, answer_setup,
}

abbrev tx_of : Node → Queue
tx_of n = n.tx

tx-IsApart : IsApart tx_of
tx-IsApart = record {
  mem = λ n m. refl;
  usb = λ n u. refl;
  regs = λ n r. refl;
  events = λ n es. refl;
  gpio_inited = λ n b. refl;
}

transfer-Keeps :
    (e : ℕ) (p : Pointer) (len : ℕ) {Q : Queue → Type 0}
    → Keeps tx_of Q (dcd_edpt_xfer_new e p len >> pure tt)
unfolding dcd_edpt_xfer_new hw_endpoint_xfer
transfer-Keeps e p len = search (leaves, tx-IsApart, hw_endpoint_xfer_start-Keeps)

drop_all : (xs : List ℕ) → drop (length xs) xs ≡ []
drop_all [] = refl
drop_all (x ∷ xs) = drop_all xs

-- the packet in `setup`
abbrev pub taken : Node → List ℕ → Node
taken n bytes = record n { mem = set_block n.mem 6 (some bytes) }

module _ ⦃sdk : Sdk⦄ where
  setup_taken :
      (p : Pointer) (n : Node) (old : List ℕ) (b0 b1 b2 b3 b4 b5 b6 b7 : ℕ)
      → let bytes = b0 ∷ b1 ∷ b2 ∷ b3 ∷ b4 ∷ b5 ∷ b6 ∷ b7 ∷ [] in
        n.pin gpio_slave_device_attached_pin ≡ true
        → fetch n.mem p 8 ≡ some bytes
        → n.mem 6 ≡ some old
        → length old ≡ 8
        → dcd_event_setup_received_new p n ≡ answer_setup b0 b1 (b2 + b3 * 256) (taken n bytes)
  unfolding dcd_event_setup_received_new memcpy load store fetch poke bm_request_type b_request
      w_value load_byte load_u16
  setup_taken p n old b0 b1 b2 b3 b4 b5 b6 b7 attached h room len = ground (arith, drop_all old)

  -- the requests of a setup packet that are answered on the spot
  abbrev pub IsRefused : ℕ → ℕ → ℕ → Type 0
  IsRefused type request value =
      ((request ≡ 0x6) × (value ≡ 0x0600)) ⊎ ((type ≡ 0x21) × (request ≡ 0x9))

  refused-Keeps :
      (type request value : ℕ) {Q : Queue → Type 0}
      → IsRefused type request value
      → Keeps tx_of Q (answer_setup type request value)
  unfolding answer_setup
  refused-Keeps type request value (inl (r, v)) = rw (r, v) (transfer-Keeps 0x80 null 0)
  refused-Keeps type request value (inr (t, r)) = rw (t, r) (transfer-Keeps 0x00 null 0)

  -- A request for the device qualifier, and a report to the device, never reach the slave: the
  -- queue to it is as it was, whatever the state of the endpoint that answers.
  pub setup_refused :
      (p : Pointer) (n : Node) (old : List ℕ) (b0 b1 b2 b3 b4 b5 b6 b7 : ℕ)
      → n.pin gpio_slave_device_attached_pin ≡ true
      → fetch n.mem p 8 ≡ some (b0 ∷ b1 ∷ b2 ∷ b3 ∷ b4 ∷ b5 ∷ b6 ∷ b7 ∷ [])
      → n.mem 6 ≡ some old
      → length old ≡ 8
      → IsRefused b0 b1 (b2 + b3 * 256)
      → (dcd_event_setup_received_new p n).1.tx ≡ n.tx
  setup_refused p n old b0 b1 b2 b3 b4 b5 b6 b7 attached h room len refused =
      rw (setup_taken p n old b0 b1 b2 b3 b4 b5 b6 b7 attached h room len)
        ((refused-Keeps b0 b1 (b2 + b3 * 256) {Q = λ q. q ≡ n.tx} refused).after _ refl)

  passed_lem :
      (type request value : ℕ)
      → request ≢ 0x5
      → ¬ IsRefused type request value
      → answer_setup type request value
        ≡ enqueue_spi_message
            (record { e_flag = 0x8002; payload_length = 8; payload = device_setup })
  unfolding answer_setup
  passed_lem type request value other passed = ground arith

  pub setup_enqueues :
      (p : Pointer) (n : Node) (old : List ℕ) (b0 b1 b2 b3 b4 b5 b6 b7 : ℕ)
      → let bytes = b0 ∷ b1 ∷ b2 ∷ b3 ∷ b4 ∷ b5 ∷ b6 ∷ b7 ∷ [] in
        n.pin gpio_slave_device_attached_pin ≡ true
        → fetch n.mem p 8 ≡ some bytes
        → n.mem 6 ≡ some old
        → length old ≡ 8
        → b1 ≢ 0x5
        → ¬ IsRefused b0 b1 (b2 + b3 * 256)
        → dcd_event_setup_received_new p n
          ≡ enqueue_spi_message
              (record { e_flag = 0x8002; payload_length = 8; payload = device_setup })
              (taken n bytes)
  setup_enqueues p n old b0 b1 b2 b3 b4 b5 b6 b7 attached h room len other passed =
      let bytes = b0 ∷ b1 ∷ b2 ∷ b3 ∷ b4 ∷ b5 ∷ b6 ∷ b7 ∷ [] in
      setup_taken p n old b0 b1 b2 b3 b4 b5 b6 b7 attached h room len
      ∙ ap (λ act. act (taken n bytes)) (passed_lem b0 b1 (b2 + b3 * 256) other passed)

module _ ⦃sdk : Sdk⦄ (fifo : IsFifo sdk) where
  -- Every setup packet but SET_ADDRESS and the refused ones goes to the slave: a message with the
  -- flags of setup data and the eight bytes of the packet, unchanged, is the last one of the queue.
  -- The pin of the slave is high, and there is room in the heap and in the queue.
  pub setup_passed :
      (p : Pointer) (n : Node) (old : List ℕ) (b0 b1 b2 b3 b4 b5 b6 b7 : ℕ)
      → n.pin gpio_slave_device_attached_pin ≡ true
      → fetch n.mem p 8 ≡ some (b0 ∷ b1 ∷ b2 ∷ b3 ∷ b4 ∷ b5 ∷ b6 ∷ b7 ∷ [])
      → n.mem 6 ≡ some old
      → length old ≡ 8
      → first_heap_block ≤ n.next_block
      → sdk.malloc_fits (set_block n.mem 6 (some (b0 ∷ b1 ∷ b2 ∷ b3 ∷ b4 ∷ b5 ∷ b6 ∷ b7 ∷ []))) 8
        ≡ true
      → length (sdk.items n.tx) < spi_queue_max_capacity
      → b1 ≢ 0x5
      → ¬ IsRefused b0 b1 (b2 + b3 * 256)
      → (n' : Node) × (dcd_event_setup_received_new p n ≡ (ok tt, n'))
        × IsQueued
            (record { flag = 0x8002; bytes = b0 ∷ b1 ∷ b2 ∷ b3 ∷ b4 ∷ b5 ∷ b6 ∷ b7 ∷ [] })
            n
            n'
  setup_passed p n old b0 b1 b2 b3 b4 b5 b6 b7 attached h room len heap fits space other passed =
      let bytes = b0 ∷ b1 ∷ b2 ∷ b3 ∷ b4 ∷ b5 ∷ b6 ∷ b7 ∷ [] in
      let n1 = taken n bytes in
      let (n', runs, queued) =
        enqueue_lem fifo (record { e_flag = 0x8002; payload_length = 8; payload = device_setup }) n1
          bytes heap (omega arith) fits refl
          (fetch_whole n1.mem 6 bytes (set_block_self n.mem 6 (some bytes))) space in
      (
        n',
        setup_enqueues p n old b0 b1 b2 b3 b4 b5 b6 b7 attached h room len other passed ∙ runs,
        queued,
      )

  -- A SET_ADDRESS never goes to the slave as it is: an empty message with the flag of a change of
  -- address does, by which the slave sets the address that it has chosen itself.
  pub setup_address :
      (p : Pointer) (n : Node) (old : List ℕ) (b0 b2 b3 b4 b5 b6 b7 : ℕ)
      → n.pin gpio_slave_device_attached_pin ≡ true
      → fetch n.mem p 8 ≡ some (b0 ∷ 5 ∷ b2 ∷ b3 ∷ b4 ∷ b5 ∷ b6 ∷ b7 ∷ [])
      → n.mem 6 ≡ some old
      → length old ≡ 8
      → first_heap_block ≤ n.next_block
      → sdk.malloc_fits (set_block n.mem 6 (some (b0 ∷ 5 ∷ b2 ∷ b3 ∷ b4 ∷ b5 ∷ b6 ∷ b7 ∷ []))) 0
        ≡ true
      → length (sdk.items n.tx) < spi_queue_max_capacity
      → (n' : Node) × (dcd_event_setup_received_new p n ≡ (ok tt, n'))
        × IsQueued (record { flag = chg_addr; bytes = [] }) n n'
  unfolding answer_setup fetch
  setup_address p n old b0 b2 b3 b4 b5 b6 b7 attached h room len heap fits space =
      let n1 = taken n (b0 ∷ 5 ∷ b2 ∷ b3 ∷ b4 ∷ b5 ∷ b6 ∷ b7 ∷ []) in
      let (n', runs, queued) =
        enqueue_lem fifo (record { e_flag = chg_addr; payload_length = 0; payload = null }) n1 []
          heap (omega arith) fits refl refl space in
      (n', setup_taken p n old b0 5 b2 b3 b4 b5 b6 b7 attached h room len ∙ runs, queued)
