-- ===== src/Endpoint/Loading.antt =====
-- An endpoint of the master that sends, and what starting its next packet puts into its buffer.
use usbsec.Base.{
  ℕ, ◌+◌, ◌-◌, ◌*◌, ◌≤◌, ◌≢◌, ◌≡◌, ap, ◌∙◌, sym, subst, List, some, true, false, min, has, arith,
  bit_and, length, take, drop, length-take, length-drop,
}
use usbsec.Node.Sdk.{Pointer, Store, forward}
use usbsec.Node.State.{Node, HwEndpoint}
use usbsec.Node.Monad.{ok}
use usbsec.Node.Memory.{fetch, poke}
use usbsec.Node.Memory.Within.{fetch_split, fetch_frame, poke_within}
use usbsec.Regs.{
  main_ctrl, main_ctrl_host_ndevice, buf_ctrl_full, buf_ctrl_avail, buf_ctrl_len_mask,
  ep_ctrl_double_buffered,
}
use usbsec.Endpoint.{
  hw_endpoint_start_next_buffer, hw_endpoint_xfer_start, hw_endpoint_xfer_continue, sync_ep_buffer,
  set_endpoint, begin_transfer, hw_endpoint_reset_transfer_new, pid_bits, last_bits,
}
use usbsec.Endpoint.Wired.{Wiring, IsWiring, IsWired, start_step}
use usbsec.Endpoint.Words.{word_lem, single_buffered_lem}
use usbsec.Endpoint.Start.{start_lem, started, regs_started, endpoint_started, advanced, next_len}

-- The bytes that are still to be put into the buffer, and how many have been sent.
abbrev pub IsLeft : Wiring → ℕ → List ℕ → ℕ → Node → Type 0
IsLeft w e bytes x n =
    let ep = n.usb.endpoint e in
    (ep.partial ≡ false)
    × (ep.remaining_len ≡ length bytes)
    × (fetch n.mem ep.user_buf (length bytes) ≡ some bytes)
    × (ep.user_buf.block ≢ w.hw.block)
    × (ep.xferred_len ≡ x)

-- A packet in the buffer.
abbrev pub IsLoaded : Wiring → List ℕ → Node → Type 0
IsLoaded w packet n =
    (fetch n.mem w.hw (length packet) ≡ some packet)
    × (bit_and (n.regs w.buf) buf_ctrl_len_mask ≡ length packet)
    × (has (n.regs w.buf) buf_ctrl_avail ≡ true)
    × (has (n.regs w.buf) buf_ctrl_full ≡ true)
    × (has (n.regs w.ctrl) ep_ctrl_double_buffered ≡ false)

forward_nothing : (p : Pointer) → forward p (0 * 64) ≡ p
forward_nothing p =
    let same : p.off + 0 * 64 ≡ p.off = omega arith in ap (λ (o : ℕ). record p { off = o }) same

started-IsWired :
    (w : Wiring) (e : ℕ) (n : Node) (mem : Store) (all : List ℕ)
    → IsWiring w
    → IsWired false w e n
    → mem w.hw.block ≡ some all
    → w.hw.off + 64 ≤ length all
    → IsWired false w e (started e true mem n)
started-IsWired w e n mem all (positive, small, apart, c_main, b_main)
      (role, device, tx, size, hw, ctrl, buf, room) at_all wide =
    let gone = endpoint_started e true mem n in
    let (at_buf, at_ctrl, others_kept) = regs_started e true mem n w.buf w.ctrl buf ctrl apart in
    (
      role,
      ap (λ v. has v main_ctrl_host_ndevice) (others_kept main_ctrl b_main c_main) ∙ device,
      ap (λ (r : HwEndpoint). r.rx) gone ∙ tx,
      ap (λ (r : HwEndpoint). r.w_max_packet_size) gone ∙ size,
      ap (λ (r : HwEndpoint). r.hw_data_buf) gone ∙ hw,
      ap (λ (r : HwEndpoint). r.endpoint_control) gone ∙ ctrl,
      ap (λ (r : HwEndpoint). r.buffer_control) gone ∙ buf,
      (all, at_all, wide),
    )

-- a packet of `k` bytes is taken from those that are left
started-IsLeft :
    (w : Wiring) (e : ℕ) (n : Node) (mem : Store) (bytes : List ℕ) (k x : ℕ)
    → IsLeft w e bytes x n
    → next_len (n.usb.endpoint e) ≡ k
    → k ≤ length bytes
    → mem (n.usb.endpoint e).user_buf.block ≡ n.mem (n.usb.endpoint e).user_buf.block
    → IsLeft w e (drop k bytes) x (started e true mem n)
started-IsLeft w e n mem bytes k x (partial, left, read, away, sent) len le unmoved =
    let ep : HwEndpoint = n.usb.endpoint e in
    let n' : Node = started e true mem n in
    let gone : n'.usb.endpoint e ≡ advanced ep = endpoint_started e true mem n in
    let from : (n'.usb.endpoint e).user_buf ≡ forward ep.user_buf k =
      ap (λ (r : HwEndpoint). r.user_buf) gone ∙ ap (forward ep.user_buf) len in
    let rest : length (drop k bytes) ≡ length bytes - k = length-drop k bytes in
    let (first, others) = fetch_split n.mem ep.user_buf (length bytes) k bytes read le in
    (
      ap (λ (r : HwEndpoint). r.partial) gone ∙ partial,
      ap (λ (r : HwEndpoint). r.remaining_len) gone ∙ omega (arith, rest, left, len),
      ap (λ p. fetch mem p (length (drop k bytes))) from
          ∙ (ap (fetch mem (forward ep.user_buf k)) rest
              ∙ (fetch_frame n.mem mem (forward ep.user_buf k) (length bytes - k) unmoved
                  ∙ others)),
      subst (λ (p : Pointer). p.block ≢ w.hw.block) (sym from) away,
      ap (λ (r : HwEndpoint). r.xferred_len) gone ∙ sent,
    )

pub load_lem :
    (w : Wiring) (e : ℕ) (n : Node) (bytes : List ℕ) (x : ℕ)
    → IsWiring w
    → IsWired false w e n
    → IsLeft w e bytes x n
    → let k = min (length bytes) w.mps in
      (n' : Node) × (hw_endpoint_start_next_buffer e n ≡ (ok tt, n'))
      × IsWired false w e n'
      × IsLoaded w (take k bytes) n'
      × IsLeft w e (drop k bytes) x n'
load_lem w e n bytes x wiring wired still =
    let (positive, small, apart, c_main, b_main) = wiring in
    let (role, device, tx, size, hw, ctrl, buf, (old, at, fits)) = wired in
    let (partial, left, read, away, sent) = still in
    let ep : HwEndpoint = n.usb.endpoint e in
    let k : ℕ = min (length bytes) w.mps in
    let le : k ≤ length bytes = omega arith in
    let len : next_len ep ≡ k = omega (arith, left, size) in
    let (first, others) = fetch_split n.mem ep.user_buf (length bytes) k bytes read le in
    let at_hw : forward ep.hw_data_buf (0 * 64) ≡ w.hw =
      ap (λ p. forward p (0 * 64)) hw ∙ forward_nothing w.hw in
    let taken : length (take k bytes) ≡ k = omega (arith, length-take k bytes) in
    let (mem, written, back, elsewhere, (all, at_all, same_size)) =
      poke_within n.mem w.hw old (take k bytes) at (omega (arith, taken)) in
    let (value_len, value_avail, value_full) =
      word_lem true (next_len ep) ep.next_pid (ep.remaining_len - next_len ep)
        (omega (arith, size)) in
    let start : usbsec.Endpoint.start_next_buffer_master e n ≡ (ok tt, started e true mem n) =
      start_lem e n (take k bytes) mem device tx (ap (λ j. fetch n.mem ep.user_buf j) len ∙ first)
        (ap (λ p. poke n.mem p (take k bytes)) at_hw ∙ written) value_avail in
    let (at_buf, at_ctrl, others_kept) = regs_started e true mem n w.buf w.ctrl buf ctrl apart in
    (
      started e true mem n,
      start_step e n role ∙ start,
      started-IsWired w e n mem all wiring wired at_all (omega (arith, same_size)),
      (
        back,
        ap (λ v. bit_and v buf_ctrl_len_mask) at_buf ∙ (value_len ∙ (len ∙ sym taken)),
        ap (λ v. has v buf_ctrl_avail) at_buf ∙ value_avail,
        ap (λ v. has v buf_ctrl_full) at_buf ∙ value_full,
        ap (λ v. has v ep_ctrl_double_buffered) at_ctrl ∙ single_buffered_lem (n.regs w.ctrl),
      ),
      started-IsLeft w e n mem bytes k x still len le (elsewhere ep.user_buf.block away),
    )
