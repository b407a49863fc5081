-- ===== src/DcdIrq/Sharing.antt =====
-- The endpoints of the master over a history of opening, closing and transfers.
use usbsec.Base.{ℕ, ◌≤◌, ◌<◌, ◌%◌, ◌≡◌, refl, Bool, true, arith, subst, sym}
use usbsec.Node.Sdk.{Pointer, forward}
use usbsec.Node.State.{Node, UsbState}
use usbsec.Node.Monad.{ok, modify}
use usbsec.Node.Memory.{dpram, load_byte, load_u16}
use usbsec.Node.Keeps.{Keeps-pure}
use usbsec.Node.Keeps.Leads.{Leads, Leads-kept, Leads-bind, returned}
use usbsec.Regs.{epx_data}
use usbsec.Endpoint.{hw_endpoint_xfer_continue, hw_endpoint_reset_transfer_new}
use usbsec.Dcd.{dcd_edpt_open_new, dcd_edpt_xfer_new, dcd_edpt_xfer_partial, hw_endpoint_init}
use usbsec.DcdIrq.{
  reset_non_control_endpoints, clear_ep_ctrl, clear_endpoints, dcd_edpt_stall_new,
  dcd_edpt_clear_stall_new,
}
use usbsec.DcdIrq.Layout.{IsShared}
use usbsec.DcdIrq.Opening.{init-Leads, ends-returned}
use usbsec.DcdIrq.Transfers.{
  usb, load_byte-Keeps, load_u16-Keeps, xfer_new-Keeps, xfer_partial-Keeps, xfer_continue-Keeps,
  reset_transfer-Keeps, stall-Keeps, clear_stall-Keeps,
}

abbrev IsAny : UsbState → Type 0
IsAny u = Unit {0}

-- no endpoint but those of number 0 is open
abbrev AreClosed : UsbState → Type 0
AreClosed u = (e : ℕ) → 2 ≤ e → e < 32 → (u.endpoint e).w_max_packet_size ≡ 0

cleared-Leads : Leads usb IsAny AreClosed (clear_endpoints 2 32)
cleared-Leads = record { after = λ n any e low high. ground arith }

emptied-Leads :
    Leads usb AreClosed IsShared
      (modify (λ n. record n { usb = record (n.usb) { next_buffer_ptr = forward dpram epx_data } }))
emptied-Leads = record {
  after = λ n closed. (
    (refl, refl, omega arith, omega arith),
    (λ e low high active. absurd (omega (arith, closed e low high))),
    (λ e f low high low' high' apart active active'. absurd (omega (arith, closed e low high))),
  );
}

reset-Leads : Leads usb IsAny IsShared reset_non_control_endpoints
unfolding reset_non_control_endpoints
reset-Leads =
    Leads-bind (clear_ep_ctrl 15) _
      (record { after = λ n any. ends-returned usb IsAny (clear_ep_ctrl 15 n) (λ h. tt) })
      (λ _. Leads-bind (clear_endpoints 2 32) _ cleared-Leads (λ _. emptied-Leads))

open-Leads : (desc_edpt : Pointer) → Leads usb IsShared IsShared (dcd_edpt_open_new desc_edpt)
unfolding dcd_edpt_open_new
open-Leads desc_edpt =
    Leads-bind (load_byte (forward desc_edpt 2)) _ (Leads-kept _ (load_byte-Keeps _)) (λ addr.
      Leads-bind (load_u16 (forward desc_edpt 4)) _ (Leads-kept _ (load_u16-Keeps _)) (λ size.
        Leads-bind (load_byte (forward desc_edpt 3)) _ (Leads-kept _ (load_byte-Keeps _))
          (λ attributes.
            Leads-bind (hw_endpoint_init addr (size % 2048) (attributes % 4)) _
              (init-Leads addr (size % 2048) (attributes % 4) (omega arith))
              (λ _. Leads-kept _ (Keeps-pure true)))))

-- What the master does with its endpoints. `elsewhere` is whatever does not touch them.
pub data EdptStep : Node → Node → Type 0 where
  opens :
      {n n' : Node} (desc_edpt : Pointer)
      → dcd_edpt_open_new desc_edpt n ≡ (ok true, n')
      → EdptStep n n'
  transfers :
      {n n' : Node} (ep_addr : ℕ) (buffer : Pointer) (len : ℕ)
      → dcd_edpt_xfer_new ep_addr buffer len n ≡ (ok true, n')
      → EdptStep n n'
  transfers_partial :
      {n n' : Node} (ep_addr : ℕ) (buffer : Pointer) (len flag : ℕ)
      → dcd_edpt_xfer_partial ep_addr buffer len flag n ≡ (ok tt, n')
      → EdptStep n n'
  continues :
      {n n' : Node} (e : ℕ) (done : Bool)
      → hw_endpoint_xfer_continue e n ≡ (ok done, n')
      → EdptStep n n'
  gives_up :
      {n n' : Node} (e : ℕ) → hw_endpoint_reset_transfer_new e n ≡ (ok tt, n') → EdptStep n n'
  stalls : {n n' : Node} (ep_addr : ℕ) → dcd_edpt_stall_new ep_addr n ≡ (ok tt, n') → EdptStep n n'
  clears_stall :
      {n n' : Node} (ep_addr : ℕ) → dcd_edpt_clear_stall_new ep_addr n ≡ (ok tt, n') → EdptStep n n'
  elsewhere : {n n' : Node} → n'.usb ≡ n.usb → EdptStep n n'

-- It begins with a reset, from any state, and there may be more of them: one is a part of
-- `dcd_init_new`, of `dcd_edpt_close_all` and of a reset of the bus. A call that stops is not gone
-- on from.
pub data EdptRun : Node → Type 0 where
  resets : (n : Node) {n' : Node} → reset_non_control_endpoints n ≡ (ok tt, n') → EdptRun n'
  and_then : {n n' : Node} → EdptRun n → EdptStep n n' → EdptRun n'

step-IsShared : {n n' : Node} → EdptStep n n' → IsShared n.usb → IsShared n'.usb
step-IsShared (opens desc_edpt step) h = returned _ _ true _ (open-Leads desc_edpt) step h
step-IsShared (transfers ep_addr buffer len step) h =
    returned _ _ true _ (Leads-kept _ (xfer_new-Keeps ep_addr buffer len)) step h
step-IsShared (transfers_partial ep_addr buffer len flag step) h =
    returned _ _ tt _ (Leads-kept _ (xfer_partial-Keeps ep_addr buffer len flag)) step h
step-IsShared (continues e done step) h =
    returned _ _ done _ (Leads-kept _ (xfer_continue-Keeps e)) step h
step-IsShared (gives_up e step) h = returned _ _ tt _ (Leads-kept _ (reset_transfer-Keeps e)) step h
step-IsShared (stalls ep_addr step) h =
    returned _ _ tt _ (Leads-kept _ (stall-Keeps ep_addr)) step h
step-IsShared (clears_stall ep_addr step) h =
    returned _ _ tt _ (Leads-kept _ (clear_stall-Keeps ep_addr)) step h
step-IsShared (elsewhere same) h = subst IsShared (sym same) h

-- Over every history of resets, endpoints that are opened, transfers and stalls, on every descriptor
-- and in any order, the buffers of the open endpoints lie in the 4 kB of USB memory behind the first
-- 0x180 bytes, each with room for a packet of its endpoint, and no two have bytes in common.
-- A call for an endpoint number above 15 leaves the table of the endpoints, which is a stop here and
-- so ends a history.
pub reached-IsShared : {n : Node} → EdptRun n → IsShared n.usb
reached-IsShared (resets n step) = returned _ n tt _ reset-Leads step tt
reached-IsShared (and_then before step) = step-IsShared step (reached-IsShared before)
