-- ===== src/HcdIrq/Invariant.antt =====
-- What the slave keeps over every history of messages, interrupts and transfers.
use usbsec.Base.{ℕ, zero, suc, ◌≡◌, refl, inl, arith, sym, subst}
use usbsec.Node.Sdk.{Sdk}
use usbsec.Node.State.{Node, HostState}
use usbsec.Node.Monad.{ok}
use usbsec.Node.Keeps.Leads.{Leads-kept, returned}
use usbsec.Endpoint.{
  sync_received, sync_ep_buffer, hw_endpoint_xfer_continue, hw_endpoint_reset_transfer_new,
}
use usbsec.Hcd.{dev_speed}
use usbsec.HostEvents.{first_host, slavework, hcd_event_device_attach, hcd_event_device_remove}
use usbsec.Endpoint.Frame.{leaves, error-Keeps, hw_endpoint_start_next_buffer-Keeps}
use usbsec.HostEvents.Frame.{KeepsHost, host-IsApart}
use usbsec.HostEvents.Invariant.{IsHost, slavework_lem, hcd_event_xfer_complete-Keeps}
use usbsec.HcdIrq.{
  hw_xfer_complete, handle_buff_status_bit, handle_interrupt_buffers, hw_handle_buff_status,
  hw_trans_complete, on_connection, hcd_rp2040_irq_new,
}

module _ {Q : HostState → Type 0} where
  sync_received-Keeps : (e len : ℕ) → KeepsHost Q (sync_received e len)
  unfolding sync_received
  sync_received-Keeps e len = search (leaves, host-IsApart) depth 20

  sync_ep_buffer-Keeps : (e : ℕ) → KeepsHost Q (sync_ep_buffer e)
  unfolding sync_ep_buffer
  sync_ep_buffer-Keeps e = search (leaves, host-IsApart, error-Keeps, sync_received-Keeps) depth 20

  hw_endpoint_xfer_continue-Keeps : (e : ℕ) → KeepsHost Q (hw_endpoint_xfer_continue e)
  unfolding hw_endpoint_xfer_continue
  hw_endpoint_xfer_continue-Keeps e =
      search
        (
          leaves, host-IsApart, error-Keeps, sync_ep_buffer-Keeps,
          hw_endpoint_start_next_buffer-Keeps,
        )
        depth 20

module _ ⦃sdk : Sdk⦄ where
  on_connection-Keeps : KeepsHost IsHost on_connection
  unfolding on_connection dev_speed hcd_event_device_attach hcd_event_device_remove
  on_connection-Keeps = search (leaves, host-IsApart) depth 20

  hw_xfer_complete-Keeps : (e result : ℕ) → KeepsHost IsHost (hw_xfer_complete e result)
  unfolding hw_xfer_complete hw_endpoint_reset_transfer_new
  hw_xfer_complete-Keeps e result =
      search (leaves, host-IsApart, hcd_event_xfer_complete-Keeps) depth 20

  handle_buff_status_bit-Keeps : (bit e : ℕ) → KeepsHost IsHost (handle_buff_status_bit bit e)
  unfolding handle_buff_status_bit
  handle_buff_status_bit-Keeps bit e =
      search (leaves, host-IsApart, hw_endpoint_xfer_continue-Keeps, hw_xfer_complete-Keeps) depth
        20

  handle_interrupt_buffers-Keeps :
      (rounds i remaining : ℕ) → KeepsHost IsHost (handle_interrupt_buffers rounds i remaining)
  unfolding handle_interrupt_buffers
  handle_interrupt_buffers-Keeps zero i remaining = search (leaves)
  handle_interrupt_buffers-Keeps (suc rounds) i remaining =
      search (leaves, handle_buff_status_bit-Keeps, handle_interrupt_buffers-Keeps rounds) depth 20

  hw_handle_buff_status-Keeps : KeepsHost IsHost hw_handle_buff_status
  unfolding hw_handle_buff_status
  hw_handle_buff_status-Keeps =
      search
        (
          leaves, host-IsApart, error-Keeps, handle_buff_status_bit-Keeps,
          handle_interrupt_buffers-Keeps,
        )
        depth 20

  hw_trans_complete-Keeps : KeepsHost IsHost hw_trans_complete
  unfolding hw_trans_complete
  hw_trans_complete-Keeps = search (leaves, hw_xfer_complete-Keeps) depth 20

  hcd_rp2040_irq_new-Keeps : KeepsHost IsHost hcd_rp2040_irq_new
  unfolding hcd_rp2040_irq_new
  hcd_rp2040_irq_new-Keeps =
      search
        (
          leaves, host-IsApart, error-Keeps, on_connection-Keeps, hw_handle_buff_status-Keeps,
          hw_trans_complete-Keeps,
        )
        depth 40

-- What happens to the slave: a call of `slavework` or an interrupt that returns, or a change of
-- anything but the static variables of host_event_handlers.c, by the hardware or other code.
pub data SlaveStep ⦃sdk : Sdk⦄ : Node → Node → Type 0 where
  works : {n n' : Node} → slavework n ≡ (ok tt, n') → SlaveStep n n'
  interrupted : {n n' : Node} → hcd_rp2040_irq_new n ≡ (ok tt, n') → SlaveStep n n'
  elsewhere : {n n' : Node} → n'.host ≡ n.host → SlaveStep n n'

pub data SlaveRun ⦃sdk : Sdk⦄ (start : Node) : Node → Type 0 where
  none_yet : SlaveRun start start
  and_then : {n n' : Node} → SlaveRun start n → SlaveStep n n' → SlaveRun start n'

module _ ⦃sdk : Sdk⦄ where
  first-IsHost : IsHost first_host
  first-IsHost = record {
    placed = record { level_le = omega arith; addressed = inl refl };
    unlocked = λ two. absurd (omega arith);
  }

  step-IsHost : {n n' : Node} → SlaveStep n n' → IsHost n.host → IsHost n'.host
  step-IsHost (works runs) h = returned slavework _ tt _ slavework_lem runs h
  step-IsHost (interrupted runs) h =
      returned hcd_rp2040_irq_new _ tt _ (Leads-kept _ hcd_rp2040_irq_new-Keeps) runs h
  step-IsHost (elsewhere same) h = subst IsHost (sym same) h

  run-IsHost : {start n : Node} → SlaveRun start n → IsHost start.host → IsHost n.host
  run-IsHost none_yet h = h
  run-IsHost (and_then before step) h = step-IsHost step (run-IsHost before h)

  -- Whatever messages, interrupts and completed transfers the slave has handled since its start,
  -- the stage of its transfer is one of 0 to 3, its transfers go to the address 0 or 7, and after
  -- the data stage of a control transfer the lock is off.
  pub reachable-IsHost :
      {start n : Node} → start.host ≡ first_host → SlaveRun start n → IsHost n.host
  reachable-IsHost started runs = run-IsHost runs (subst IsHost (sym started) first-IsHost)
