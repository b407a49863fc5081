-- ===== src/Endpoint/Continue.antt =====
-- `hw_endpoint_xfer_continue` for an endpoint that sends: the interrupt after a packet.
use usbsec.Base.{
  ℕ, ◌+◌, ◌%◌, ◌^◌, ◌≤◌, ◌<◌, ◌≡◌, true, false, has, arith, bit_and, ltb, Bool-cases, inl, inr,
}
use usbsec.Node.State.{Node}
use usbsec.Node.Monad.{ok}
use usbsec.Regs.{buf_ctrl_full, buf_ctrl_len_mask, ep_ctrl_double_buffered}
use usbsec.Endpoint.{
  hw_endpoint_start_next_buffer, hw_endpoint_xfer_continue, sync_ep_buffer, set_endpoint,
}

-- A packet of `p` bytes of the endpoint is through: its buffer is not full any more.
abbrev pub IsThrough : ℕ → ℕ → Node → Type 0
IsThrough e p n =
    let ep = n.usb.endpoint e in
    (ep.rx ≡ false)
    × (ep.partial ≡ false)
    × (has (n.regs ep.buffer_control) buf_ctrl_full ≡ false)
    × (bit_and (n.regs ep.buffer_control) buf_ctrl_len_mask ≡ p)
    × (has (n.regs ep.endpoint_control) ep_ctrl_double_buffered ≡ false)

abbrev pub counted : ℕ → ℕ → Node → Node
counted e p n =
    let ep = n.usb.endpoint e in
    set_endpoint e (record ep { xferred_len = (ep.xferred_len + p) % 2 ^ 16 }) n

-- a packet of the full size
sync_full :
    (e p : ℕ) (n : Node)
    → IsThrough e p n
    → 0 < p
    → (n.usb.endpoint e).w_max_packet_size ≡ p
    → sync_ep_buffer e n ≡ (ok p, counted e p n)
unfolding sync_ep_buffer
sync_full e p n (tx, partial, through, len, single) positive size = ground arith

-- a shorter packet is the last
sync_short :
    (e p : ℕ) (n : Node)
    → IsThrough e p n
    → p < (n.usb.endpoint e).w_max_packet_size
    → let n1 = counted e p n in
      sync_ep_buffer e n
      ≡ (ok p, set_endpoint e (record (n1.usb.endpoint e) { remaining_len = 0 }) n1)
unfolding sync_ep_buffer
sync_short e p n (tx, partial, through, len, single) short = ground arith

-- There are more bytes: the next packet is started.
pub continue_lem :
    (e p : ℕ) (n : Node)
    → IsThrough e p n
    → 0 < p
    → (n.usb.endpoint e).w_max_packet_size ≡ p
    → 0 < (n.usb.endpoint e).remaining_len
    → (n' : Node) → hw_endpoint_start_next_buffer e (counted e p n) ≡ (ok tt, n')
    → hw_endpoint_xfer_continue e n ≡ (ok false, n')
unfolding hw_endpoint_xfer_continue
continue_lem e p n (tx, partial, through, len, single) positive size more n' next =
    ground (arith, sync_full e p n (tx, partial, through, len, single) positive size)

-- There are no more: the transfer is complete.
pub complete_lem :
    (e p x : ℕ) (n : Node)
    → IsThrough e p n
    → 0 < (n.usb.endpoint e).w_max_packet_size
    → p ≤ (n.usb.endpoint e).w_max_packet_size
    → (n.usb.endpoint e).remaining_len ≡ 0
    → (n.usb.endpoint e).xferred_len ≡ x
    → x + p < 2 ^ 16
    → (n' : Node) × (hw_endpoint_xfer_continue e n ≡ (ok true, n'))
      × ((n'.usb.endpoint e).xferred_len ≡ x + p)
      × ((n'.usb.endpoint e).remaining_len ≡ 0)
unfolding hw_endpoint_xfer_continue
complete_lem e p x n (tx, partial, through, len, single) positive le left sent fits =
    let n1 = counted e p n in
    elim (Bool-cases (ltb p (n.usb.endpoint e).w_max_packet_size)) [
      | inl short ↦ (
        set_endpoint e (record (n1.usb.endpoint e) { remaining_len = 0 }) n1,
        ground (arith, sync_short e p n (tx, partial, through, len, single) (ground arith)),
        ground arith,
        ground arith,
      )
      | inr full ↦ (
        n1,
        ground (
          arith,
          sync_full e p n (tx, partial, through, len, single) (ground arith) (ground arith),
        ),
        ground arith,
        ground arith,
      )
    ]
