-- ===== src/HcdIrq.antt =====
-- pico_firmware/src/lib/rp2040/hcd_rp2040.c, the interrupt side of the slave.
pub mod Invariant
use usbsec.Base.{ℕ, zero, suc, ◌+◌, ◌*◌, ◌^◌, true, ◌&&◌, ◌!=◌, if◌then◌else◌, has}
use usbsec.Node.Sdk.{Sdk}
use usbsec.Node.State.{Event}
use usbsec.Node.Monad.{M, Void, pure, gets, when, emit, error, ◌>>=◌, ◌>>◌}
use usbsec.Messages.{gpio_put}
use usbsec.Regs.{buf_status, sie_ctrl, sie_status, ints, clear_bits, read_reg}
use usbsec.Endpoint.{endpoint, hw_endpoint_xfer_continue, hw_endpoint_reset_transfer_new}
use usbsec.Hcd.{epx, dev_speed}
use usbsec.HostEvents.{hcd_event_xfer_complete, hcd_event_device_attach, hcd_event_device_remove}

-- The error paths that light the LED and the pins 5 and 6, or 4, before `error()`.
abbrev show_pin : ℕ → M Void
show_pin pin = do emit (Event.gpio_init pin); emit (Event.gpio_set_dir pin true); gpio_put pin true

module _ ⦃sdk : Sdk⦄ where
  unfoldable pub hw_xfer_complete : ℕ → ℕ → M Void
  unfolding hw_endpoint_reset_transfer_new hcd_event_xfer_complete
  hw_xfer_complete e xfer_result = do
    ep ← endpoint e
    when (xfer_result != 4) (hw_endpoint_reset_transfer_new e)
    hcd_event_xfer_complete ep.dev_addr ep.ep_addr ep.xferred_len xfer_result

  unfoldable pub handle_buff_status_bit : ℕ → ℕ → M Void
  unfolding hw_endpoint_xfer_continue hw_xfer_complete
  handle_buff_status_bit bit e = do
    emit (Event.reg_clear buf_status bit)
    done ← hw_endpoint_xfer_continue e
    hw_xfer_complete e (if done then 0 else 4)

  -- the loop over the interrupt endpoints: `rounds` of them from `i` on; the buffers that are left
  unfoldable pub handle_interrupt_buffers : ℕ → ℕ → ℕ → M ℕ
  unfolding handle_buff_status_bit
  handle_interrupt_buffers zero i remaining = pure remaining
  handle_interrupt_buffers (suc rounds) i remaining = do
    let bit = 2 ^ (i * 2)
    let hit = remaining != 0 && has remaining bit
    when hit (handle_buff_status_bit bit (epx + i))
    handle_interrupt_buffers rounds (i + 1) (if hit then clear_bits remaining bit else remaining)

  unfoldable pub hw_handle_buff_status : M Void
  unfolding handle_buff_status_bit handle_interrupt_buffers error
  hw_handle_buff_status = do
    status ← read_reg buf_status
    active ← gets (λ n. n.usb.active_ep)
    when (has status 1) (handle_buff_status_bit 1 active)
    remaining ← handle_interrupt_buffers 15 1 (if has status 1 then clear_bits status 1 else status)
    when (remaining != 0) (gpio_put 25 true >> error)

  unfoldable pub hw_trans_complete : M Void
  unfolding hw_xfer_complete
  hw_trans_complete = do ctrl ← read_reg sie_ctrl; when (has ctrl 2) (hw_xfer_complete epx 0)

  unfoldable pub on_connection : M Void
  unfolding dev_speed hcd_event_device_attach hcd_event_device_remove
  on_connection = do
    speed ← dev_speed
    if speed != 0 then hcd_event_device_attach else hcd_event_device_remove
    emit (Event.reg_clear sie_status (3 * 2 ^ 8))

  -- The bits of `ints` that are marked as handled: HOST_CONN_DIS 0, BUFF_STATUS 4,
  -- TRANS_COMPLETE 3, EP_STALL_NAK 19, STALL 10, ERROR_RX_TIMEOUT 6. A data sequence error, bit 5,
  -- stops before the test for the others. Calls after `error()` are never made.
  unfoldable pub hcd_rp2040_irq_new : M Void
  unfolding on_connection hw_handle_buff_status hw_trans_complete error
  hcd_rp2040_irq_new = do
    status ← read_reg ints
    when (has status (2 ^ 0)) on_connection
    when (has status (2 ^ 4)) hw_handle_buff_status
    when (has status (2 ^ 3)) (emit (Event.reg_clear sie_status (2 ^ 18)) >> hw_trans_complete)
    when (has status (2 ^ 19))
        (do emit (Event.reg_clear sie_status (2 ^ 28)); show_pin 6; show_pin 5; error)
    when (has status (2 ^ 10))
        (do emit (Event.reg_clear sie_status (2 ^ 29)); gpio_put 25 true; show_pin 6; error)
    when (has status (2 ^ 6)) (gpio_put 25 true >> show_pin 5)
    when (has status (2 ^ 5))
        (do emit (Event.reg_clear sie_status (2 ^ 31)); gpio_put 25 true; show_pin 4; error)
    when (clear_bits status (2 ^ 0 + 2 ^ 4 + 2 ^ 3 + 2 ^ 19 + 2 ^ 10 + 2 ^ 6) != 0)
        (gpio_put 25 true >> error)
