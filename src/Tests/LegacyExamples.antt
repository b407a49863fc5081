-- ===== src/Tests/LegacyExamples.antt =====
-- The parts under legacy, and the debug output, at concrete data.
use usbsec.Base.{
  ℕ, ◌+◌, ◌-◌, ◌*◌, ◌/◌, ◌≢◌, ◌≤◌, ◌<◌, ◌≡◌, refl, none, some, List, [], ◌∷◌, length, get_or,
  replicate, ◌==◌, if◌then◌else◌, arith,
}
use usbsec.Node.State.{Node}
use usbsec.Node.Monad.{ok}
use usbsec.Node.Memory.{fetch, set_block}
use usbsec.Legacy.Queue.{Ring, q_get}
use usbsec.Legacy.Queue.Fifo.{IsValid, contents}
use usbsec.Legacy.Queue.Refine.{
  Call, puts, gets, stored, waits, got, ring_answers, fifo_answers, fifo_step, ring_answers_lem,
}
use usbsec.Legacy.Queue.Slots.{after_puts, q_get-after_puts}
use usbsec.Legacy.Bits.{get_bit, set_bit, get_byte_bit, reverse}
use usbsec.Legacy.Bits.Access.{get_bit-set_bit, reverse_lem}
use usbsec.Legacy.Registry.{Registry}
use usbsec.Legacy.Registry.Walk.{walk, sevenths, walk_lem}
use usbsec.Legacy.PioUsb.{done, overflow, pio_usb_send_se0_terminated_packet}
use usbsec.Legacy.PioUsb.Send.{pack, levels, send-pack, send_bounds}
use usbsec.Legacy.Events.{QueuedEvent, create_event, delete_event}
use usbsec.Legacy.Events.Copies.{copy_of, create_event_lem}
use usbsec.Tests.Fixtures.{list_sdk, holding, held}

-- four slots, of which two are in use, across the end of the array
abbrev wrapped : Ring ℕ
wrapped = record { capacity = 4; loc = λ i. i + 10; begin = 3; end = 1 }

abbrev wrapped-IsValid : IsValid wrapped
wrapped-IsValid = record { begin_in = omega arith; end_in = omega arith; small = omega arith }

abbrev calls : List (Call ℕ)
calls = puts 7 ∷ puts 8 ∷ gets ∷ gets ∷ gets ∷ gets ∷ []

ring_answers_lem_example :
    ring_answers wrapped calls
    ≡ stored ∷ waits ∷ got (some 13) ∷ got (some 10) ∷ got (some 7) ∷ got none ∷ []
unfolding fifo_answers fifo_step
ring_answers_lem_example = ring_answers_lem wrapped calls wrapped-IsValid

q_get-after_puts_example : (after_puts (record wrapped { begin = 0 }) (7 ∷ 8 ∷ 9 ∷ [])).loc 3 ≡ 13
unfolding q_get
q_get-after_puts_example =
    q_get-after_puts wrapped (record wrapped { begin = 0 }) 3 (7 ∷ 8 ∷ 9 ∷ []) wrapped-IsValid refl

two_bytes-small : (k : ℕ) → get_or (0xa5 ∷ 0x3c ∷ []) k 0 < 256
two_bytes-small k = ground arith

get_bit-set_bit_example :
    (b : List ℕ) × (set_bit (0xa5 ∷ 0x3c ∷ []) 9 1 ≡ some b)
    × (get_bit b 10 ≡ (if 9 == 10 then some 1 else get_bit (0xa5 ∷ 0x3c ∷ []) 10))
get_bit-set_bit_example =
    get_bit-set_bit (0xa5 ∷ 0x3c ∷ []) 9 10 1 two_bytes-small (omega arith) (omega arith)

reverse_lem_example :
    (reverse (reverse 0x0b) ≡ 0x0b)
    × ((s : ℕ) → s < 8 → get_byte_bit (reverse 0x0b) s ≡ get_byte_bit 0x0b (7 - s))
reverse_lem_example = reverse_lem 0x0b (omega arith)

abbrev three_entries : Registry ℕ
three_entries = record { entry = λ i. i; count = 3 }

walk_lem_example : walk (3 + 1) three_entries 0 ≡ some (sevenths 3 0)
walk_lem_example = walk_lem three_entries

-- a byte of eight ones, which the standard wants a bit stuffed into
send-pack_example :
    pio_usb_send_se0_terminated_packet (0xff ∷ []) 1
    ≡ pack (record { pending = 0x999a; count = 8; full = [] }) (levels (0xff ∷ []) (1 * 8) 0 0)
send-pack_example = send-pack (0xff ∷ []) 1 (omega arith)

send_bounds_example :
    (199 ≤ 198
      → (words : List ℕ) × (pio_usb_send_se0_terminated_packet (replicate 199 0xff) 199
          ≡ done words)
        × (length words ≡ (199 + 1) / 2 + 1))
    × (198 < 199 → pio_usb_send_se0_terminated_packet (replicate 199 0xff) 199 ≡ overflow)
send_bounds_example = send_bounds (replicate 199 0xff) 199 (omega arith)

abbrev event : QueuedEvent
event = record { e_flag = 2; payload_length = 2; payload = held; ep_addr = 0x81 }

abbrev events : Ring QueuedEvent
events = record { capacity = 20; loc = λ i. event; begin = 19; end = 19 }

create_event_lem_example :
    (q : Ring QueuedEvent) × (n : Node) × (create_event events event (holding (7 ∷ 9 ∷ []))
      ≡ (ok q, n))
    × (contents q ≡ copy_of (holding (7 ∷ 9 ∷ [])) event ∷ [])
    × (fetch n.mem (copy_of (holding (7 ∷ 9 ∷ [])) event).payload 2 ≡ some (7 ∷ 9 ∷ []))
    × ((k : ℕ) → k ≢ 16 → n.mem k ≡ (holding (7 ∷ 9 ∷ [])).mem k)
    × (delete_event (copy_of (holding (7 ∷ 9 ∷ [])) event) n
        ≡ (ok tt, record n { mem = set_block n.mem 16 none }))
unfolding fetch
create_event_lem_example =
    create_event_lem events event (holding (7 ∷ 9 ∷ [])) (7 ∷ 9 ∷ [])
      (record { begin_in = omega arith; end_in = omega arith; small = omega arith }) (omega arith)
      (omega arith) (omega arith) refl refl (omega arith) refl
