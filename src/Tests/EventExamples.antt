-- ===== src/Tests/EventExamples.antt =====
-- The handlers of the master at concrete states.
use usbsec.Base.{◌≡◌, refl, List, [], ◌∷◌, some, if◌then◌else◌, ◌==◌, replicate, arith}
use usbsec.Node.Sdk.{Message, null}
use usbsec.Node.State.{Node}
use usbsec.Node.Monad.{ok, stop, Stop}
use usbsec.Messages.Contents.{Content}
use usbsec.DeviceEvents.{handle_descriptors, next_packet}
use usbsec.DeviceEvents.Descriptors.{handle_descriptors_stuck}
use usbsec.DeviceEvents.Printing.{next_packet_lem}
use usbsec.Tests.Fixtures.{list_sdk, list-IsFifo, start, static_memory}

-- A configuration of 32 bytes that has only zeros behind its first descriptor.
handle_descriptors_stuck_example : handle_descriptors 33 32 9 null start ≡ (stop Stop.spins, start)
handle_descriptors_stuck_example =
    handle_descriptors_stuck 33 32 9 null start (replicate 1024 0) (omega arith) refl (omega arith)
      refl (omega arith)

-- a text, and then a packet
abbrev packet : Message
packet = record { e_flag = 0x101; payload_length = 1; payload = record { block = 17; off = 0 } }

abbrev texts : List Message
texts =
    record { e_flag = 0x4000; payload_length = 3; payload = record { block = 16; off = 0 } }
    ∷ packet
    ∷ []

abbrev texts_content : List Content
texts_content =
    record { flag = 0x4000; bytes = 72 ∷ 105 ∷ 0 ∷ [] }
    ∷ record { flag = 0x101; bytes = 7 ∷ [] }
    ∷ []

abbrev talking : Node
talking = record start {
  next_block = 18;
  mem = λ b.
      if b == 16
      then some (72 ∷ 105 ∷ 0 ∷ [])
      else if b == 17
      then some (7 ∷ [])
      else static_memory b;
  rx = texts;
}

next_packet_lem_example : (n : Node) × (next_packet 3 talking ≡ (ok (some packet), n)) × (n.rx ≡ [])
next_packet_lem_example =
    next_packet_lem list-IsFifo 3 texts texts_content talking refl (omega arith)
      (
        (refl, refl, refl, refl, omega arith, omega arith),
        ((refl, refl, refl, refl, omega arith, omega arith), tt),
      )
      (((λ e. absurd (omega arith)), tt), (tt, tt)) ((72 ∷ 105 ∷ [], refl), tt)
