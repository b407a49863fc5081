-- ===== src/Tests/DriverExamples.antt =====
-- Registrations of a keyboard, of a mouse, and the places of endpoints.
use usbsec.Base.{ℕ, ◌<◌, ◌≡◌, refl, List, [], ◌∷◌, arith}
use usbsec.Node.Sdk.{Message, forward}
use usbsec.Node.Monad.{ok, stop, Stop}
use usbsec.Node.State.{Node}
use usbsec.Node.Memory.{fetch}
use usbsec.Drivers.{idx, register_driver_for_edpt, handle_spi_slave_event_with_driver, hid_spi}
use usbsec.Drivers.Index.{idx_injective, idx_collision}
use usbsec.Drivers.Keyboard.{lit, keyboard_refused, last_registration_decides}
use usbsec.Tests.Fixtures.{list_sdk, holding, held, static_memory}

-- an interface descriptor, class HID, of the protocol given, and an endpoint descriptor for 0x81
abbrev descriptors : ℕ → List ℕ
descriptors protocol = 9 ∷ 4 ∷ 0 ∷ 0 ∷ 1 ∷ 3 ∷ 1 ∷ protocol ∷ 0 ∷ 7 ∷ 5 ∷ 0x81 ∷ 3 ∷ 8 ∷ 0 ∷ 10 ∷ []

abbrev packet : Message
packet = record { e_flag = 0x0500; payload_length = 8; payload = held }

-- the keyboard is registered, and its descriptors are gone
abbrev forgotten : Node
forgotten =
    let n' = (register_driver_for_edpt (forward held 9) held 64 (holding (descriptors 1))).1 in
    record n' { mem = static_memory }

keyboard_refused_example :
    ((register_driver_for_edpt (forward held 9) held 64 (holding (descriptors 1))).0 ≡ ok tt)
    × (handle_spi_slave_event_with_driver packet 0x81 forgotten ≡ (stop Stop.panic, lit forgotten))
unfolding fetch idx
keyboard_refused_example =
    keyboard_refused packet (forward held 9) held 64 0x81 (9 ∷ 4 ∷ 0 ∷ 0 ∷ 1 ∷ 3 ∷ 1 ∷ 1 ∷ 0 ∷ [])
      (holding (descriptors 1)) forgotten refl refl refl refl (omega arith) refl

last_registration_decides_example :
    let n' = (register_driver_for_edpt (forward held 9) held 64 (holding (descriptors 2))).1 in
    handle_spi_slave_event_with_driver packet 0x81 n' ≡ hid_spi packet 0x81 n'
unfolding fetch idx
last_registration_decides_example =
    last_registration_decides packet (forward held 9) held 64 0x81
      (9 ∷ 4 ∷ 0 ∷ 0 ∷ 1 ∷ 3 ∷ 1 ∷ 2 ∷ 0 ∷ []) (holding (descriptors 2)) refl refl refl
      (omega arith) (omega arith)

idx_injective_example : (idx 0x81 < 32) × (idx 0x81 ≡ idx 0x02 → ◌≡◌ {A = ℕ} 0x81 0x02)
idx_injective_example = idx_injective 0x81 0x02 (omega arith) (omega arith)

idx_collision_example : idx 0x11 ≡ idx 0x81
idx_collision_example = idx_collision 0x11 (omega arith) (omega arith)
