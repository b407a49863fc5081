-- ===== src/DcdIrq.antt =====
-- pico_firmware/src/lib/rp2040/dcd_rp2040.c, the interrupt side of the master: which buffers are
-- done, bus resets and setup packets; with initialisation and stalls. A write through the clear
-- or set alias of a register is a call of the hardware, and is kept as an event.
pub mod Layout
pub mod Opening
pub mod Transfers
pub mod Sharing
use usbsec.Base.{
  ℕ, zero, suc, ◌+◌, ◌/◌, ◌%◌, ◌^◌, false, ◌&&◌, ◌==◌, ◌!=◌, if◌then◌else◌, has, leb, ltb,
}
use usbsec.Node.Sdk.{Sdk, null, forward}
use usbsec.Node.State.{HwEndpoint, Event}
use usbsec.Node.Monad.{M, Void, pure, modify, when, emit, error, ◌>>=◌, ◌>>◌}
use usbsec.Node.Memory.{dpram}
use usbsec.Regs.{
  addr_endp, main_ctrl, sie_ctrl, sie_status, buf_status, ep_stall_arm, usb_pwr, inte, ints,
  dev_ep_ctrl_in, dev_ep_ctrl_out, epx_data, buf_ctrl_stall, clear_bits, read_reg, write_reg,
}
use usbsec.Endpoint.{
  endpoint, update, edpt_number, edpt_dir_in, hw_endpoint_xfer_continue,
  hw_endpoint_reset_transfer_new, hw_endpoint_buffer_control_set_value32,
  hw_endpoint_buffer_control_clear_mask32,
}
use usbsec.Dcd.{by_num, get_by_addr, hw_endpoint_init}
use usbsec.DeviceEvents.{
  dcd_event_xfer_complete_new, dcd_event_setup_received_new, device_event_bus_reset,
}

-- what `tu_memclr` leaves in an endpoint
abbrev pub cleared : HwEndpoint
cleared = record {
  configured = false;
  rx = false;
  ep_addr = 0;
  next_pid = 0;
  endpoint_control = 0;
  buffer_control = 0;
  hw_data_buf = null;
  active = false;
  remaining_len = 0;
  xferred_len = 0;
  user_buf = null;
  w_max_packet_size = 0;
  transfer_type = 0;
  dev_addr = 0;
  interrupt_num = 0;
  partial = false;
}

-- `tu_memclr` of the endpoints `first` up to (not including) `last`
abbrev pub clear_endpoints : ℕ → ℕ → M Void
clear_endpoints first last = modify (λ n. record n {
  usb = record (n.usb) {
    endpoint = λ k. if leb first k && ltb k last then cleared else n.usb.endpoint k;
  };
})

-- `for (i …) { usb_dpram->ep_ctrl[i].in = 0; usb_dpram->ep_ctrl[i].out = 0; }`, from the last one
unfoldable pub clear_ep_ctrl : ℕ → M Void
clear_ep_ctrl zero = pure tt
clear_ep_ctrl (suc i) = do
  write_reg (dev_ep_ctrl_in i) 0
  write_reg (dev_ep_ctrl_out i) 0
  clear_ep_ctrl i

unfoldable pub reset_non_control_endpoints : M Void
unfolding clear_ep_ctrl
reset_non_control_endpoints = do
  clear_ep_ctrl 15
  clear_endpoints 2 32
  modify (λ n. record n { usb = record (n.usb) { next_buffer_ptr = forward dpram epx_data } })

unfoldable pub reset_ep0_pid : M Void
reset_ep0_pid = do
  out ← get_by_addr 0x0
  update out (λ r. record r { next_pid = 1 })
  in_edpt ← get_by_addr 0x80
  update in_edpt (λ r. record r { next_pid = 1 })

-- The bits of `ints`: bus reset 12, setup request 16, buffer status 4, suspend 14, resume from
-- the host 15. Any other is an error. `SIE_STATUS`: bus reset 19, setup 17, suspended 4,
-- resume 11.
abbrev pub device_irqs : ℕ
device_irqs = 2 ^ 12 + 2 ^ 16 + 2 ^ 4 + 2 ^ 14 + 2 ^ 15

module _ ⦃sdk : Sdk⦄ where
  unfoldable pub hw_handle_buff_status_bit : ℕ → M Void
  unfolding hw_endpoint_xfer_continue dcd_event_xfer_complete_new hw_endpoint_reset_transfer_new
  hw_handle_buff_status_bit i = do
    emit (Event.reg_clear buf_status (2 ^ i))
    let e = by_num (i / 2) (i % 2 == 0)
    done ← hw_endpoint_xfer_continue e
    when done (do
      ep ← endpoint e
      dcd_event_xfer_complete_new ep.ep_addr ep.xferred_len
      hw_endpoint_reset_transfer_new e)

  -- The loop over the OUT endpoints, `rounds` of them from buffer `i` on. Once one is handled,
  -- bit 2 (the IN buffer of endpoint 1) is taken from the buffers that remain.
  unfoldable pub handle_out_buffers : ℕ → ℕ → ℕ → M ℕ
  unfolding hw_handle_buff_status_bit
  handle_out_buffers zero i remaining = pure remaining
  handle_out_buffers (suc rounds) i remaining = do
    let hit = remaining != 0 && has remaining (2 ^ i)
    when hit (hw_handle_buff_status_bit i)
    handle_out_buffers rounds (i + 2) (if hit then clear_bits remaining 4 else remaining)

  unfoldable pub handle_in_buffers : ℕ → ℕ → ℕ → M Void
  unfolding hw_handle_buff_status_bit
  handle_in_buffers zero i remaining = pure tt
  handle_in_buffers (suc rounds) i remaining = do
    when (remaining != 0 && has remaining (2 ^ i)) (hw_handle_buff_status_bit i)
    handle_in_buffers rounds (i + 2) remaining

  unfoldable pub hw_handle_buff_status : M Void
  unfolding hw_handle_buff_status_bit handle_out_buffers handle_in_buffers
  hw_handle_buff_status = do
    remaining ← read_reg buf_status
    when (has remaining 2) (hw_handle_buff_status_bit 1)
    when (has remaining 1) (hw_handle_buff_status_bit 0)
    remaining' ← handle_out_buffers 15 3 remaining
    handle_in_buffers 15 2 remaining'

  unfoldable pub on_bus_reset : M Void
  unfolding reset_non_control_endpoints device_event_bus_reset
  on_bus_reset = do
    write_reg addr_endp 0
    reset_non_control_endpoints
    device_event_bus_reset
    emit (Event.reg_clear sie_status (2 ^ 19))

  unfoldable pub on_setup_request : M Void
  unfolding reset_ep0_pid dcd_event_setup_received_new
  on_setup_request = do
    reset_ep0_pid
    dcd_event_setup_received_new dpram
    emit (Event.reg_clear sie_status (2 ^ 17))

  -- `handled` collects exactly the bits of `status` among `device_irqs`.
  unfoldable pub dcd_rp2040_irq_new : M Void
  unfolding on_bus_reset on_setup_request hw_handle_buff_status error
  dcd_rp2040_irq_new = do
    status ← read_reg ints
    when (status != 0) (do
      when (has status (2 ^ 12)) on_bus_reset
      when (has status (2 ^ 16)) on_setup_request
      when (has status (2 ^ 4)) hw_handle_buff_status
      when (has status (2 ^ 14)) (emit (Event.reg_clear sie_status (2 ^ 4)))
      when (has status (2 ^ 15)) (emit (Event.reg_clear sie_status (2 ^ 11)))
      when (clear_bits status device_irqs != 0) error)

unfoldable pub dcd_connect : M Void
dcd_connect = emit (Event.reg_set sie_ctrl (2 ^ 16))

unfoldable pub dcd_disconnect : M Void
dcd_disconnect = emit (Event.reg_clear sie_ctrl (2 ^ 16))

-- `rp2040_usb_init` is not in the repository, and is kept as an event.
unfoldable pub dcd_init_new : M Void
unfolding hw_endpoint_init reset_non_control_endpoints dcd_connect
dcd_init_new = do
  emit Event.usb_init
  write_reg usb_pwr (2 ^ 2 + 2 ^ 3)
  clear_endpoints 0 2
  hw_endpoint_init 0x0 64 0
  hw_endpoint_init 0x80 64 0
  reset_non_control_endpoints
  write_reg main_ctrl 1
  write_reg sie_ctrl (2 ^ 29)
  write_reg inte (2 ^ 4 + 2 ^ 12 + 2 ^ 16 + 2 ^ 14 + 2 ^ 15)
  dcd_connect

unfoldable pub dcd_edpt_close_all : M Void
unfolding reset_non_control_endpoints
dcd_edpt_close_all = reset_non_control_endpoints

unfoldable pub dcd_edpt_stall_new : ℕ → M Void
unfolding hw_endpoint_buffer_control_set_value32
dcd_edpt_stall_new ep_addr = do
  when (edpt_number ep_addr == 0)
      (emit (Event.reg_set ep_stall_arm (if edpt_dir_in ep_addr then 1 else 2)))
  e ← get_by_addr ep_addr
  hw_endpoint_buffer_control_set_value32 e buf_ctrl_stall

unfoldable pub dcd_edpt_clear_stall_new : ℕ → M Void
unfolding hw_endpoint_buffer_control_clear_mask32
dcd_edpt_clear_stall_new ep_addr = when (edpt_number ep_addr != 0) (do
  e ← get_by_addr ep_addr
  update e (λ r. record r { next_pid = 0 })
  hw_endpoint_buffer_control_clear_mask32 e buf_ctrl_stall)
