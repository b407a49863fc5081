-- ===== src/Endpoint/Awaiting.antt =====
-- An endpoint of the master that receives, and what it is when its buffer waits for a packet.
use usbsec.Base.{
  ℕ, ◌+◌, ◌-◌, ◌≤◌, ◌≢◌, ◌≡◌, ◌∙◌, List, some, true, false, min, has, arith, bit_or, bit_xor,
  length, if◌then◌else◌, ◌==◌,
}
use usbsec.Node.Sdk.{Pointer, forward}
use usbsec.Node.State.{Node, HwEndpoint}
use usbsec.Node.Monad.{ok}
use usbsec.Node.Memory.{fetch}
use usbsec.Regs.{
  main_ctrl, main_ctrl_host_ndevice, buf_ctrl_full, buf_ctrl_avail, ep_ctrl_double_buffered,
}
use usbsec.Endpoint.{
  hw_endpoint_start_next_buffer, start_next_buffer_master, prepare_ep_buffer, set_endpoint,
  pid_bits, last_bits, single_buffered,
}
use usbsec.Endpoint.Words.{word_lem, single_buffered_lem}
use usbsec.Endpoint.Start.{controlled, set_value_lem, next_len, next_word}
use usbsec.Endpoint.Wired.{Wiring, IsWiring, IsWired, start_step}

-- The bytes that came in, at the front of a buffer with room for `room` more.
abbrev pub IsCollecting : Wiring → ℕ → Pointer → List ℕ → ℕ → Node → Type 0
IsCollecting w e buffer got room n =
    let ep = n.usb.endpoint e in
    (ep.partial ≡ false)
    × (ep.user_buf ≡ forward buffer (length got))
    × (fetch n.mem buffer (length got) ≡ some got)
    × (buffer.block ≢ w.hw.block)
    × (buffer.block ≢ 0)
    × ((all : List ℕ) × (n.mem buffer.block ≡ some all)
        × (buffer.off + length got + room ≤ length all))
    × (ep.xferred_len ≡ length got)

-- A buffer that waits for a packet.
abbrev pub IsAwaiting : Wiring → Node → Type 0
IsAwaiting w n =
    (has (n.regs w.buf) buf_ctrl_avail ≡ true)
    × (has (n.regs w.buf) buf_ctrl_full ≡ false)
    × (has (n.regs w.ctrl) ep_ctrl_double_buffered ≡ false)

abbrev awaited : ℕ → Node → Node
awaited e n =
    let ep = n.usb.endpoint e in
    set_endpoint e
      (record ep {
        remaining_len = ep.remaining_len - next_len ep;
        next_pid = bit_xor ep.next_pid 1;
      })
      n

abbrev awaiting : ℕ → Node → Node
awaiting e n =
    let ep = n.usb.endpoint e in
    let n1 = awaited e n in
    controlled ep.buffer_control (next_word false ep) (record n1 {
      regs = λ k.
          if k == ep.endpoint_control
          then single_buffered (n.regs ep.endpoint_control)
          else n.regs k;
    })

prepare_rx :
    (e : ℕ) (n : Node)
    → (n.usb.endpoint e).rx ≡ true
    → let ep = n.usb.endpoint e in
      let len = next_len ep in
      prepare_ep_buffer e 0 n ≡ (
        ok (
            bit_or
              (bit_or (bit_or len buf_ctrl_avail) (pid_bits ep.next_pid))
              (last_bits (ep.remaining_len - len))),
        awaited e n,
      )
unfolding prepare_ep_buffer
prepare_rx e n rx = ground arith

start_rx :
    (e : ℕ) (n : Node)
    → has (n.regs main_ctrl) main_ctrl_host_ndevice ≡ false
    → (n.usb.endpoint e).rx ≡ true
    → has (next_word false (n.usb.endpoint e)) buf_ctrl_avail ≡ true
    → start_next_buffer_master e n ≡ (ok tt, awaiting e n)
unfolding start_next_buffer_master
start_rx e n device rx avail =
    let ep = n.usb.endpoint e in
    let n1 = awaited e n in
    let n2 : Node = record n1 {
      regs = λ k.
          if k == ep.endpoint_control
          then single_buffered (n.regs ep.endpoint_control)
          else n.regs k;
    } in
    ground (arith, prepare_rx e n rx, set_value_lem e (next_word false ep) n2 avail)

pub await_lem :
    (w : Wiring) (e : ℕ) (n : Node) (buffer : Pointer) (got : List ℕ) (room : ℕ)
    → IsWiring w
    → IsWired true w e n
    → IsCollecting w e buffer got room n
    → (n' : Node) × (hw_endpoint_start_next_buffer e n ≡ (ok tt, n'))
      × IsWired true w e n'
      × IsAwaiting w n'
      × IsCollecting w e buffer got room n'
      × ((n'.usb.endpoint e).remaining_len
          ≡ (n.usb.endpoint e).remaining_len - min (n.usb.endpoint e).remaining_len w.mps)
await_lem w e n buffer got room (positive, small, apart, c_main, b_main)
      (role, device, rx, size, hw, ctrl, buf, old) (partial, user, read, away, real, behind, sent) =
    let ep : HwEndpoint = n.usb.endpoint e in
    let (value_len, value_avail, value_full) =
      word_lem false (next_len ep) ep.next_pid (ep.remaining_len - next_len ep)
        (omega (arith, size)) in
    let double = single_buffered_lem (n.regs ep.endpoint_control) in
    (
      awaiting e n,
      start_step e n role ∙ start_rx e n device rx value_avail,
      (
        role,
        ground arith,
        ground arith,
        ground arith,
        ground arith,
        ground arith,
        ground arith,
        old,
      ),
      (ground (arith, value_avail), ground (arith, value_full), ground (arith, double)),
      (ground arith, ground arith, read, away, real, behind, ground arith),
      ground (arith, size),
    )
