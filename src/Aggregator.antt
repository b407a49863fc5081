-- ===== src/Aggregator.antt =====
-- pico_firmware/src/lib/setup_response_aggregator/setup_response_aggregator.c: the packets of a
-- setup response are collected in `bugger`, 1024 bytes, and forwarded to the host one by one.
pub mod Collect
use usbsec.Base.{ℕ, ◌+◌, ◌%◌, ◌^◌, Bool, true}
use usbsec.Node.Sdk.{Message, Pointer, forward}
use usbsec.Node.State.{AggregatorState}
use usbsec.Node.Monad.{M, Void, pure, gets, modify, ◌>>=◌, ◌>>◌}
use usbsec.Node.Memory.{aggregator_bugger, memcpy}
use usbsec.Dcd.{dcd_edpt_xfer_new}

abbrev pub update_aggregator : (AggregatorState → AggregatorState) → M Void
update_aggregator f = modify (λ n. record n { aggregator = f n.aggregator })

unfoldable pub register_response : Message → M Void
unfolding memcpy dcd_edpt_xfer_new
register_response message = do
  a ← gets (λ n. n.aggregator)
  memcpy (forward aggregator_bugger a.len) message.payload message.payload_length
  dcd_edpt_xfer_new 0x80 message.payload message.payload_length
  update_aggregator (λ r. record r { len = (r.len + message.payload_length) % 2 ^ 16 })

abbrev pub get_concatenated_response : Pointer
get_concatenated_response = aggregator_bugger

abbrev pub get_concatenated_response_len : M ℕ
get_concatenated_response_len = gets (λ n. n.aggregator.len)

unfoldable pub send_packet_upstream : M Bool
send_packet_upstream = update_aggregator (λ r. record r { len = 0 }) >> pure true

unfoldable pub set_max_packet_size : ℕ → M Void
set_max_packet_size new_mps = update_aggregator (λ r. record r { mps = new_mps })
