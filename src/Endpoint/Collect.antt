-- ===== src/Endpoint/Collect.antt =====
-- `hw_endpoint_xfer_continue` for an endpoint of the master that receives: the interrupt after a
-- packet.
use usbsec.Base.{
  ℕ, ◌+◌, ◌%◌, ◌^◌, ◌≤◌, ◌<◌, ◌≢◌, ◌≡◌, refl, true, false, List, length, some, has, arith, bit_and,
  ltb, Bool-cases, inl, inr,
}
use usbsec.Node.Sdk.{Store, forward}
use usbsec.Node.State.{Node, master}
use usbsec.Node.Monad.{ok}
use usbsec.Node.Memory.{fetch, poke, load, store, memcpy}
use usbsec.Regs.{buf_ctrl_full, buf_ctrl_len_mask, ep_ctrl_double_buffered}
use usbsec.Endpoint.{
  hw_endpoint_start_next_buffer, hw_endpoint_xfer_continue, sync_ep_buffer, sync_received,
  set_endpoint,
}

-- A packet is in the buffer of the endpoint, and `mem` is the memory once it is copied.
abbrev pub IsArrived : ℕ → List ℕ → Store → Node → Type 0
IsArrived e packet mem n =
    let ep = n.usb.endpoint e in
    (n.role ≡ master)
    × (ep.rx ≡ true)
    × (ep.partial ≡ false)
    × (has (n.regs ep.buffer_control) buf_ctrl_full ≡ true)
    × (bit_and (n.regs ep.buffer_control) buf_ctrl_len_mask ≡ length packet)
    × (has (n.regs ep.endpoint_control) ep_ctrl_double_buffered ≡ false)
    × (ep.user_buf.block ≢ 0)
    × (fetch n.mem ep.hw_data_buf (length packet) ≡ some packet)
    × (poke n.mem ep.user_buf packet ≡ some mem)

abbrev pub collected : ℕ → ℕ → Store → Node → Node
collected e p mem n =
    let ep = n.usb.endpoint e in
    set_endpoint e
      (record ep { xferred_len = (ep.xferred_len + p) % 2 ^ 16; user_buf = forward ep.user_buf p })
      (record n { mem = mem })

receive_packet :
    (e : ℕ) (packet : List ℕ) (mem : Store) (n : Node)
    → IsArrived e packet mem n
    → sync_received e (length packet) n ≡ (ok tt, collected e (length packet) mem n)
unfolding sync_received memcpy load store
receive_packet e packet mem n (role, rx, partial, full, len, single, real, read, written) =
    ground arith

-- a packet of the full size
sync_full :
    (e : ℕ) (packet : List ℕ) (mem : Store) (n : Node)
    → IsArrived e packet mem n
    → 0 < length packet
    → (n.usb.endpoint e).w_max_packet_size ≡ length packet
    → sync_ep_buffer e n ≡ (ok (length packet), collected e (length packet) mem n)
unfolding sync_ep_buffer
sync_full e packet mem n arrived positive size =
    let (role, rx, partial, full, len, single, real, read, written) = arrived in
    ground (arith, receive_packet e packet mem n arrived)

-- a shorter packet is the last
sync_short :
    (e : ℕ) (packet : List ℕ) (mem : Store) (n : Node)
    → IsArrived e packet mem n
    → length packet < (n.usb.endpoint e).w_max_packet_size
    → let n1 = collected e (length packet) mem n in
      sync_ep_buffer e n
      ≡ (ok (length packet), set_endpoint e (record (n1.usb.endpoint e) { remaining_len = 0 }) n1)
unfolding sync_ep_buffer
sync_short e packet mem n arrived short =
    let (role, rx, partial, full, len, single, real, read, written) = arrived in
    ground (arith, receive_packet e packet mem n arrived)

-- More is to come: the buffer is made ready for it.
pub collect_next :
    (e : ℕ) (packet : List ℕ) (mem : Store) (n : Node)
    → IsArrived e packet mem n
    → 0 < length packet
    → (n.usb.endpoint e).w_max_packet_size ≡ length packet
    → 0 < (n.usb.endpoint e).remaining_len
    → (n' : Node)
    → hw_endpoint_start_next_buffer e (collected e (length packet) mem n) ≡ (ok tt, n')
    → hw_endpoint_xfer_continue e n ≡ (ok false, n')
unfolding hw_endpoint_xfer_continue
collect_next e packet mem n arrived positive size more n' next =
    let (role, rx, partial, full, len, single, real, read, written) = arrived in
    ground (arith, sync_full e packet mem n arrived positive size)

-- A short packet, or one that leaves no room, is the last.
pub collect_last :
    (e x : ℕ) (packet : List ℕ) (mem : Store) (n : Node)
    → IsArrived e packet mem n
    → 0 < (n.usb.endpoint e).w_max_packet_size
    → length packet ≤ (n.usb.endpoint e).w_max_packet_size
    → ((n.usb.endpoint e).w_max_packet_size ≤ length packet → (n.usb.endpoint e).remaining_len ≡ 0)
    → (n.usb.endpoint e).xferred_len ≡ x
    → x + length packet < 2 ^ 16
    → (n' : Node) × (hw_endpoint_xfer_continue e n ≡ (ok true, n'))
      × ((n'.usb.endpoint e).xferred_len ≡ x + length packet)
      × (n'.mem ≡ mem)
unfolding hw_endpoint_xfer_continue
collect_last e x packet mem n arrived positive le none sent fits =
    let (role, rx, partial, full, len, single, real, read, written) = arrived in
    let n1 = collected e (length packet) mem n in
    elim (Bool-cases (ltb (length packet) (n.usb.endpoint e).w_max_packet_size)) [
      | inl short ↦ (
        set_endpoint e (record (n1.usb.endpoint e) { remaining_len = 0 }) n1,
        ground (arith, sync_short e packet mem n arrived (ground arith)),
        ground arith,
        refl,
      )
      | inr whole ↦ (
        n1,
        ground (
          arith,
          sync_full e packet mem n arrived (ground arith) (ground arith),
          none (ground arith),
        ),
        ground arith,
        refl,
      )
    ]
