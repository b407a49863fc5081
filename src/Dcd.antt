-- ===== src/Dcd.antt =====
-- pico_firmware/src/lib/rp2040/dcd_rp2040.c, the part that the event handlers call: the
-- endpoints of the master, which is a USB device. `hw_endpoints[num][dir]` is endpoint
-- `2 * num + dir`; direction IN is 1.
pub mod Buffers
use usbsec.Base.{
  ℕ, ◌+◌, ◌-◌, ◌*◌, ◌/◌, ◌%◌, ◌^◌, Bool, true, false, not, ◌==◌, leb, ltb, if◌then◌else◌, bit_or,
}
use usbsec.Node.Sdk.{Pointer, forward}
use usbsec.Node.State.{HwEndpoint}
use usbsec.Node.Monad.{M, Void, Stop, halt, pure, gets, modify, when, runtime_assert, ◌>>=◌, ◌>>◌}
use usbsec.Node.Memory.{dpram, load_byte, load_u16}
use usbsec.Regs.{
  addr_endp, dev_ep_ctrl_in, dev_ep_ctrl_out, dev_buf_ctrl_in, dev_buf_ctrl_out, ep0_buf_a,
  usb_dpram_max, usb_max_endpoints, ep_ctrl_enable, write_reg,
}
use usbsec.Endpoint.{
  endpoint, update, edpt_number, edpt_dir_in, hw_endpoint_xfer_start, hw_endpoint_xfer_partial,
}

-- `hw_endpoint_get_by_num`
abbrev pub by_num : ℕ → Bool → ℕ
by_num num dir_in = 2 * num + (if dir_in then 1 else 0)

abbrev pub by_addr : ℕ → ℕ
by_addr ep_addr = by_num (edpt_number ep_addr) (edpt_dir_in ep_addr)

-- `hw_endpoint_get_by_addr`; the table has a row for the numbers 0 to 15 only
abbrev pub get_by_addr : ℕ → M ℕ
get_by_addr ep_addr =
    if ltb (edpt_number ep_addr) usb_max_endpoints then pure (by_addr ep_addr) else halt Stop.fault

-- the room that `_hw_endpoint_alloc` takes: a multiple of 64, twice that for a bulk endpoint (2)
abbrev pub alloc_size : ℕ → ℕ → ℕ
alloc_size w_max_packet_size transfer_type =
    let size = (w_max_packet_size + 63) / 64 * 64 in
    (if transfer_type == 2 then size * 2 else size) % 2 ^ 16

unfoldable pub hw_endpoint_alloc : ℕ → ℕ → M Void
unfolding runtime_assert
hw_endpoint_alloc e transfer_type = do
  ep ← endpoint e
  start ← gets (λ n. n.usb.next_buffer_ptr)
  let end = forward start (alloc_size ep.w_max_packet_size transfer_type)
  update e (λ r. record r { hw_data_buf = start })
  modify (λ n. record n { usb = record (n.usb) { next_buffer_ptr = end } })
  runtime_assert (end.off % 64 == 0)
  runtime_assert (leb end.off usb_dpram_max)
  write_reg ep.endpoint_control (bit_or (bit_or ep_ctrl_enable (transfer_type * 2 ^ 26)) start.off)

abbrev pub init_endpoint : ℕ → ℕ → ℕ → HwEndpoint → HwEndpoint
init_endpoint ep_addr w_max_packet_size transfer_type ep =
    let num = edpt_number ep_addr in
    let dir_in = edpt_dir_in ep_addr in
    record ep {
      ep_addr = ep_addr;
      rx = not dir_in;
      next_pid = 0;
      w_max_packet_size = w_max_packet_size;
      transfer_type = transfer_type;
      buffer_control = if dir_in then dev_buf_ctrl_in num else dev_buf_ctrl_out num;
    }

unfoldable pub hw_endpoint_init : ℕ → ℕ → ℕ → M Void
unfolding hw_endpoint_alloc
hw_endpoint_init ep_addr w_max_packet_size transfer_type = do
  e ← get_by_addr ep_addr
  let num = edpt_number ep_addr
  update e (init_endpoint ep_addr w_max_packet_size transfer_type)
  ep ← endpoint e
  write_reg ep.buffer_control 0
  if num == 0
      then update e (λ r. record r { endpoint_control = 0; hw_data_buf = forward dpram ep0_buf_a })
      else (do
        update e (λ r. record r {
          endpoint_control =
              if edpt_dir_in ep_addr then dev_ep_ctrl_in (num - 1) else dev_ep_ctrl_out (num - 1);
        })
        hw_endpoint_alloc e transfer_type)

unfoldable pub hw_endpoint_xfer : ℕ → Pointer → ℕ → M Void
unfolding hw_endpoint_xfer_start
hw_endpoint_xfer ep_addr buffer total_bytes =
    get_by_addr ep_addr >>= λ e. hw_endpoint_xfer_start e buffer total_bytes

-- `rhport` is 0 in every call.
unfoldable pub dcd_edpt_xfer_new : ℕ → Pointer → ℕ → M Bool
unfolding hw_endpoint_xfer
dcd_edpt_xfer_new ep_addr buffer total_bytes =
    hw_endpoint_xfer ep_addr buffer total_bytes >> pure true

unfoldable pub dcd_edpt_xfer_partial : ℕ → Pointer → ℕ → ℕ → M Void
unfolding hw_endpoint_xfer_partial
dcd_edpt_xfer_partial ep_addr buffer total_bytes flag =
    get_by_addr ep_addr >>= λ e. hw_endpoint_xfer_partial e buffer total_bytes flag

-- The fields of the endpoint descriptor at `desc_edpt`: the address, the size (the low 11 bits of
-- `wMaxPacketSize`) and the transfer type (the low two bits of `bmAttributes`).
unfoldable pub dcd_edpt_open_new : Pointer → M Bool
unfolding load_byte load_u16 hw_endpoint_init
dcd_edpt_open_new desc_edpt = do
  addr ← load_byte (forward desc_edpt 2)
  size ← load_u16 (forward desc_edpt 4)
  attributes ← load_byte (forward desc_edpt 3)
  hw_endpoint_init addr (size % 2048) (attributes % 4)
  pure true

-- `request` points to a setup packet: bytes 0 and 1 are the request, and `wValue` follows.
-- Recipient DEVICE and type STANDARD are 0; SET_ADDRESS is 5.
unfoldable pub dcd_edpt0_status_complete : Pointer → M Void
unfolding load_byte load_u16
dcd_edpt0_status_complete request = do
  request_type ← load_byte request
  b_request ← load_byte (forward request 1)
  w_value ← load_u16 (forward request 2)
  when
      (if request_type % 32 == 0
        then (if request_type / 32 % 4 == 0 then b_request == 5 else false)
        else false)
      (write_reg addr_endp (w_value % 256))
