-- ===== src/Tests/UsbExamples.antt =====
-- The endpoint pool of the host controller, and the aggregator, at concrete states.
use usbsec.Base.{ℕ, ◌≡◌, refl, true, Option, replicate, arith}
use usbsec.Node.Sdk.{Message}
use usbsec.Node.State.{Node}
use usbsec.Node.Monad.{ok, stop, Stop}
use usbsec.Node.Memory.{fetch}
use usbsec.DcdIrq.{cleared}
use usbsec.Hcd.{hw_endpoint_allocate, get_dev_ep}
use usbsec.Hcd.Pool.{IsFirst, get_dev_ep_lem, hw_endpoint_allocate_full}
use usbsec.Aggregator.{register_response}
use usbsec.Aggregator.Collect.{register_response_overflows}
use usbsec.Tests.Fixtures.{start, holding, held}

-- every endpoint is in use, with address 0x85
abbrev crowded : Node
crowded = record start {
  usb = record {
    endpoint = λ e. record cleared { configured = true; ep_addr = 0x85 };
    active_ep = 32;
    next_buffer_ptr = record { block = 8; off = 1024 };
  };
}

hw_endpoint_allocate_full_example :
    let (r, n') = hw_endpoint_allocate 3 0x81 crowded in
    (r ≡ ok 47) × ((n'.usb.endpoint 47).configured ≡ true) × ((n'.usb.endpoint 47).ep_addr ≡ 0x85)
hw_endpoint_allocate_full_example =
    hw_endpoint_allocate_full 3 0x81 crowded (omega arith) (λ k a b. refl)

get_dev_ep_lem_example :
    (found : Option ℕ) × (get_dev_ep 0x85 crowded ≡ (ok found, crowded))
    × IsFirst crowded.usb.endpoint 0x85 33 48 found
get_dev_ep_lem_example = get_dev_ep_lem 0x85 crowded (omega arith)

-- 1000 bytes are collected, and a packet of 64 follows
abbrev brimming : Node
brimming = record (holding (replicate 64 7)) { aggregator = record { mps = 64; len = 1000 } }

abbrev packet : Message
packet = record { e_flag = 0x102; payload_length = 64; payload = held }

register_response_overflows_example :
    register_response packet brimming ≡ (stop Stop.fault, brimming)
unfolding fetch
register_response_overflows_example =
    register_response_overflows packet brimming (replicate 1024 0) (replicate 64 7) refl refl
      (omega arith) (omega arith)
