-- ===== src/Endpoint/Wired.antt =====
-- An endpoint of the master with its place in memory and its registers, and how a transfer begins.
use usbsec.Base.{
  ap, ◌∙◌, ℕ, ◌+◌, ◌≤◌, ◌<◌, ◌≢◌, ◌≡◌, refl, Bool, false, List, some, has, arith, length,
  Bool-cases, inl, inr,
}
use usbsec.Node.Sdk.{Pointer}
use usbsec.Node.State.{Node, HwEndpoint, master}
use usbsec.Regs.{main_ctrl, main_ctrl_host_ndevice}
use usbsec.Endpoint.{
  hw_endpoint_start_next_buffer, start_next_buffer_master, hw_endpoint_xfer_start, set_endpoint,
  begin_transfer, hw_endpoint_reset_transfer_new, reset_transfer,
}

-- An endpoint for packets of at most `mps` bytes, with its buffer and its two registers.
pub record Wiring : Type 0 where
  pub mps : ℕ
  pub hw : Pointer
  pub ctrl : ℕ
  pub buf : ℕ

-- What the sizes and places of it are to be: the buffer holds 64 bytes, the registers are different.
abbrev pub IsWiring : Wiring → Type 0
IsWiring w =
    (0 < w.mps) × (w.mps ≤ 64) × (w.ctrl ≢ w.buf) × (w.ctrl ≢ main_ctrl) × (w.buf ≢ main_ctrl)

-- A node of the master has it at place `e`; `rx` where packets come from the computer.
abbrev pub IsWired : Bool → Wiring → ℕ → Node → Type 0
IsWired rx w e n =
    let ep = n.usb.endpoint e in
    (n.role ≡ master)
    × (has (n.regs main_ctrl) main_ctrl_host_ndevice ≡ false)
    × (ep.rx ≡ rx)
    × (ep.w_max_packet_size ≡ w.mps)
    × (ep.hw_data_buf ≡ w.hw)
    × (ep.endpoint_control ≡ w.ctrl)
    × (ep.buffer_control ≡ w.buf)
    × ((old : List ℕ) × (n.mem w.hw.block ≡ some old) × (w.hw.off + 64 ≤ length old))

pub start_step :
    (e : ℕ) (n : Node)
    → n.role ≡ master
    → hw_endpoint_start_next_buffer e n ≡ start_next_buffer_master e n
unfolding hw_endpoint_start_next_buffer
start_step e n role = ground arith

-- What `hw_endpoint_xfer_start` does before the first packet, an old transfer being given up.
pub begin_step :
    (e : ℕ) (n : Node) (buffer : Pointer) (len : ℕ)
    → (n1 : Node) × (hw_endpoint_xfer_start e buffer len n ≡ hw_endpoint_start_next_buffer e n1)
      × (n1.usb.endpoint e ≡ begin_transfer buffer len false (n.usb.endpoint e))
      × (n1.mem ≡ n.mem)
      × (n1.regs ≡ n.regs)
      × (n1.role ≡ n.role)
unfolding hw_endpoint_xfer_start hw_endpoint_reset_transfer_new
begin_step e n buffer len =
    let ep : HwEndpoint = n.usb.endpoint e in
    let begun : HwEndpoint = begin_transfer buffer len false ep in
    elim (Bool-cases ep.active) [
      | inl active ↦ (
        set_endpoint e begun (set_endpoint e (reset_transfer ep) n),
        ground arith,
        ground arith,
        refl,
        refl,
        refl,
      )
      | inr idle ↦ (set_endpoint e begun n, ground arith, ground arith, refl, refl, refl)
    ]

pub begin_lem :
    (rx : Bool) (w : Wiring) (e : ℕ) (n : Node) (buffer : Pointer) (len : ℕ)
    → IsWired rx w e n
    → (n1 : Node) × (hw_endpoint_xfer_start e buffer len n ≡ hw_endpoint_start_next_buffer e n1)
      × IsWired rx w e n1
      × (n1.usb.endpoint e ≡ begin_transfer buffer len false (n.usb.endpoint e))
      × (n1.mem ≡ n.mem)
begin_lem rx w e n buffer len (role, device, dir, size, hw, ctrl, buf, (old, at, wide)) =
    let (n1, start, begun, mem, regs, role1) = begin_step e n buffer len in
    (
      n1,
      start,
      (
        role1 ∙ role,
        ap (λ r. has (r main_ctrl) main_ctrl_host_ndevice) regs ∙ device,
        ap (λ r. r.rx) begun ∙ dir,
        ap (λ r. r.w_max_packet_size) begun ∙ size,
        ap (λ r. r.hw_data_buf) begun ∙ hw,
        ap (λ r. r.endpoint_control) begun ∙ ctrl,
        ap (λ r. r.buffer_control) begun ∙ buf,
        (old, ap (λ m. m w.hw.block) mem ∙ at, wide),
      ),
      begun,
      mem,
    )
