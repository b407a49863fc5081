-- ===== src/Dcd/Buffers.antt =====
-- How the device controller shares out the USB memory.
use usbsec.Base.{ℕ, ◌+◌, ◌%◌, ◌≤◌, ◌<◌, ◌≡◌, arith}
use usbsec.Node.State.{Node}
use usbsec.Node.Monad.{ok, stop, Stop, runtime_assert}
use usbsec.Dcd.{alloc_size, hw_endpoint_alloc}

-- The buffer of an endpoint begins where the last one ended, holds a packet of the endpoint's size
-- (for a bulk endpoint it is twice as long as it would be otherwise), is a multiple of 64 bytes
-- long, and the next one begins at its end. The allocation returns if that end lies within the
-- 4 kB, and fails an assertion if not. The last buffer ended at a multiple of 64, and packets are
-- smaller than 2048 bytes, which is what a descriptor can say.
pub hw_endpoint_alloc_lem :
    (e transfer_type : ℕ) (n : Node)
    → n.usb.next_buffer_ptr.off % 64 ≡ 0
    → (n.usb.endpoint e).w_max_packet_size < 2048
    → let size = alloc_size (n.usb.endpoint e).w_max_packet_size transfer_type in
      let (r, n') = hw_endpoint_alloc e transfer_type n in
      ((n'.usb.endpoint e).hw_data_buf ≡ n.usb.next_buffer_ptr)
      × (n'.usb.next_buffer_ptr.off ≡ n.usb.next_buffer_ptr.off + size)
      × (size % 64 ≡ 0)
      × ((n.usb.endpoint e).w_max_packet_size ≤ size)
      × (n'.usb.next_buffer_ptr.off ≤ 4096 → r ≡ ok tt)
      × (4096 < n'.usb.next_buffer_ptr.off → r ≡ stop Stop.assertion)
unfolding hw_endpoint_alloc runtime_assert
hw_endpoint_alloc_lem e transfer_type n aligned small =
    (ground arith, ground arith, ground arith, ground arith, ground arith, ground arith)
