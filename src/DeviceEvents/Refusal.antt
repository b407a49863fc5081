-- ===== src/DeviceEvents/Refusal.antt =====
-- What the master does with a packet of a keyboard's endpoint.
use usbsec.Base.{
  ℕ, suc, ◌+◌, ◌%◌, ◌<◌, ◌≡◌, refl, some, true, false, List, [], ◌∷◌, ◌++◌, length, get_or, has,
  ◌==◌, ap, ◌∙◌, arith, length-append, subst, sym,
}
use usbsec.Node.Sdk.{Sdk, IsFifo, Message, Queue, forward}
use usbsec.Node.State.{Node, reading_response}
use usbsec.Node.Monad.{ok, stop, Stop, runtime_assert}
use usbsec.Node.Memory.{load_byte}
use usbsec.Node.Memory.Bytes.{load_byte_lem}
use usbsec.Messages.MsgType.{is_packet, setup_data, debug_print_as_string}
use usbsec.Messages.Contents.{StandsFor}
use usbsec.Validator.{is_keyboard}
use usbsec.Drivers.{idx}
use usbsec.Drivers.Keyboard.{lit, keyboard_stops}
use usbsec.DeviceEvents.{handle_spi_slave_event, handle_packet, next_packet}
use usbsec.DeviceEvents.Printing.{next_packet-packet}

get_or-last : (xs : List ℕ) (a : ℕ) → get_or (xs ++ (a ∷ [])) (length xs) 0 ≡ a
get_or-last [] a = refl
get_or-last (x ∷ xs) a = get_or-last xs a

-- a packet on an endpoint other than 0
abbrev pub IsReport : ℕ → Type 0
IsReport flag =
    (has flag is_packet ≡ true)
    × (has flag setup_data ≡ false)
    × ((flag == debug_print_as_string) ≡ false)

module _ ⦃sdk : Sdk⦄ where
  packet_stops :
      (m : Message) (n : Node) (a : ℕ)
      → load_byte (forward m.payload ((m.payload_length + 0xffff) % 0x1_0000)) n ≡ (ok a, n)
      → IsReport m.e_flag
      → idx a < 32
      → is_keyboard (n.drivers.itf_copy (idx a)) ≡ true
      → handle_packet m n ≡ (stop Stop.panic, lit n)
  unfolding handle_packet runtime_assert
  packet_stops m n a read (packet, plain, _) place keyboard =
      let msg : Message = record m { payload_length = (m.payload_length + 0xffff) % 0x1_0000 } in
      ground (arith, read, keyboard_stops msg a n place keyboard)

  event_stops :
      (m : Message) (n : Node) (q : Queue)
      → n.device.setup_response_dir ≡ reading_response
      → next_packet (suc (sdk.queue_level n.rx)) n ≡ (ok (some m), record n { rx = q })
      → handle_packet m (record n { rx = q }) ≡ (stop Stop.panic, lit (record n { rx = q }))
      → handle_spi_slave_event n ≡ (stop Stop.panic, lit (record n { rx = q }))
  unfolding handle_spi_slave_event
  event_stops m n q reading taken stops = ground (arith, taken, stops)

module _ ⦃sdk : Sdk⦄ (fifo : IsFifo sdk) where
  pub report_stops :
      (n : Node) (m : Message) (ms : List Message) (flag a : ℕ) (sent : List ℕ)
      → sdk.items n.rx ≡ m ∷ ms
      → StandsFor n.mem n.next_block m (record { flag = flag; bytes = sent ++ (a ∷ []) })
      → length sent < 1000
      → IsReport flag
      → n.device.setup_response_dir ≡ reading_response
      → idx a < 32
      → is_keyboard (n.drivers.itf_copy (idx a)) ≡ true
      → (q : Queue) × (handle_spi_slave_event n ≡ (stop Stop.panic, lit (record n { rx = q })))
        × (sdk.items q ≡ ms)
  report_stops n m ms flag a sent its (flagged, len, off, held, heap, below) small is reading place
        keyboard =
      let (q, front, rest) = fifo.queue_try_remove-first n.rx m ms its in
      let grown = length-append sent (a ∷ []) in
      let n1 = record n { rx = q } in
      let count : (m.payload_length + 0xffff) % 0x1_0000 ≡ length sent =
        omega (arith, grown, len, small) in
      let at : (forward m.payload ((m.payload_length + 0xffff) % 0x1_0000)).off ≡ length sent =
        omega (arith, off, count) in
      let read : load_byte (forward m.payload ((m.payload_length + 0xffff) % 0x1_0000)) n1
          ≡ (ok a, n1) =
        load_byte_lem (forward m.payload ((m.payload_length + 0xffff) % 0x1_0000)) n1
          (sent ++ (a ∷ [])) held (omega (arith, at, grown))
        ∙ ap (λ k. (ok (get_or (sent ++ (a ∷ [])) k 0), n1)) at
        ∙ ap (λ b. (ok b, n1)) (get_or-last sent a) in
      let report : IsReport m.e_flag = subst IsReport (sym flagged) is in
      (
        q,
        event_stops m n q reading (next_packet-packet (sdk.queue_level n.rx) n m q front report.2)
            (packet_stops m n1 a read report place keyboard),
        rest,
      )
