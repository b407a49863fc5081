-- ===== src/DeviceEvents/Descriptors.antt =====
-- The loop of `handle_setup_response` over the descriptors of a configuration.
use usbsec.Base.{ℕ, zero, suc, ◌+◌, ◌<◌, ◌≢◌, ◌≡◌, refl, List, some, length, get_or, arith}
use usbsec.Node.Sdk.{Sdk, Pointer, forward}
use usbsec.Node.State.{Node}
use usbsec.Node.Monad.{stop, Stop}
use usbsec.Node.Memory.Bytes.{load_byte_lem}
use usbsec.Aggregator.{get_concatenated_response}
use usbsec.DeviceEvents.{handle_descriptor, handle_descriptors}

module _ ⦃sdk : Sdk⦄ where
  -- A descriptor of length 0 whose type is not that of an endpoint is passed by the loop again and
  -- again: whatever fuel it is given, it never leaves the place and the node does not change. The
  -- place is before the end of the response, and two bytes of the array are left there.
  pub handle_descriptors_stuck :
      (fuel len pos : ℕ) (itf : Pointer) (n : Node) (bytes : List ℕ)
      → pos < len
      → n.mem 3 ≡ some bytes
      → pos + 1 < length bytes
      → get_or bytes pos 0 ≡ 0
      → get_or bytes (pos + 1) 0 ≢ 5
      → handle_descriptors fuel len pos itf n ≡ (stop Stop.spins, n)
  unfolding handle_descriptors handle_descriptor
  handle_descriptors_stuck zero len pos itf n bytes lt h inside nil other = refl
  handle_descriptors_stuck (suc fuel) len pos itf n bytes lt h inside nil other = ground (
    arith,
    load_byte_lem (forward get_concatenated_response pos) n bytes h (omega arith),
    load_byte_lem (forward (forward get_concatenated_response pos) 1) n bytes h (omega arith),
    handle_descriptors_stuck fuel len pos itf n bytes lt h inside nil other,
    handle_descriptors_stuck fuel len pos (forward get_concatenated_response pos) n bytes lt h
        inside nil other,
  )
