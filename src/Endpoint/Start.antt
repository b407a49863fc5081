-- ===== src/Endpoint/Start.antt =====
-- `_hw_endpoint_start_next_buffer` of the master, whose controller is a device and so never takes
-- two buffers at once.
use usbsec.Base.{
  ℕ, zero, suc, Bool, bit_or, ◌-◌, ◌*◌, ◌≢◌, ◌≡◌, List, some, true, false, min, has, arith, bit_xor,
  bit_or-0, ◌==◌, if◌then◌else◌,
}
use usbsec.Node.Sdk.{Store, forward}
use usbsec.Node.State.{Node, HwEndpoint}
use usbsec.Node.Monad.{ok}
use usbsec.Node.Memory.{fetch, poke, load, store, memcpy}
use usbsec.Regs.{main_ctrl, main_ctrl_host_ndevice, buf_ctrl_avail, buf_ctrl_full, clear_bits}
use usbsec.Endpoint.{
  start_next_buffer_master, prepare_ep_buffer, hw_endpoint_buffer_control_set_value32,
  hw_endpoint_buffer_control_update32, pid_bits, last_bits, single_buffered, set_endpoint,
}
use usbsec.Endpoint.Words.{word}

-- the endpoint when its next packet is in the buffer
abbrev pub advanced : HwEndpoint → HwEndpoint
advanced ep =
    let len = min ep.remaining_len ep.w_max_packet_size in
    record ep {
      remaining_len = ep.remaining_len - len;
      next_pid = bit_xor ep.next_pid 1;
      user_buf = forward ep.user_buf len;
    }

-- the node when a word with AVAILABLE was written, at first without it
abbrev pub controlled : ℕ → ℕ → Node → Node
controlled b v n = record n {
  regs = λ k. if k == b then v else if k == b then clear_bits v buf_ctrl_avail else n.regs k;
}

pub set_value_lem :
    (e v : ℕ) (n : Node)
    → has v buf_ctrl_avail ≡ true
    → hw_endpoint_buffer_control_set_value32 e v n
      ≡ (ok tt, controlled (n.usb.endpoint e).buffer_control v n)
unfolding hw_endpoint_buffer_control_set_value32 hw_endpoint_buffer_control_update32
set_value_lem e zero n h = absurd (ground arith)
set_value_lem e (suc v) n h = ground (arith, bit_or-0 (suc v))

-- the packet that comes next, and its word
abbrev pub next_len : HwEndpoint → ℕ
next_len ep = min ep.remaining_len ep.w_max_packet_size

abbrev pub next_word : Bool → HwEndpoint → ℕ
next_word tx ep =
    word tx (next_len ep) (pid_bits ep.next_pid) (last_bits (ep.remaining_len - next_len ep))

-- the node when the packet is in the buffer, and the endpoint has gone on
abbrev pub prepared : ℕ → Store → Node → Node
prepared e mem n =
    let ep = n.usb.endpoint e in
    let n1 =
      set_endpoint e
        (record ep {
          remaining_len = ep.remaining_len - next_len ep;
          next_pid = bit_xor ep.next_pid 1;
        })
        n in
    set_endpoint e (advanced ep) (record n1 { mem = mem })

prepare_lem :
    (e : ℕ) (n : Node) (packet : List ℕ) (mem : Store)
    → (n.usb.endpoint e).rx ≡ false
    → fetch n.mem (n.usb.endpoint e).user_buf (next_len (n.usb.endpoint e)) ≡ some packet
    → poke n.mem (forward (n.usb.endpoint e).hw_data_buf (0 * 64)) packet ≡ some mem
    → let ep = n.usb.endpoint e in
      let len = next_len ep in
      let ready = bit_or (bit_or len buf_ctrl_avail) (pid_bits ep.next_pid) in
      prepare_ep_buffer e 0 n ≡ (
        ok (bit_or (bit_or ready buf_ctrl_full) (last_bits (ep.remaining_len - len))),
        prepared e mem n,
      )
unfolding prepare_ep_buffer memcpy load store
prepare_lem e n packet mem tx read written = ground arith

abbrev pub started : ℕ → Bool → Store → Node → Node
started e tx mem n =
    let ep = n.usb.endpoint e in
    let n1 = prepared e mem n in
    controlled ep.buffer_control (next_word tx ep) (record n1 {
      regs = λ k.
          if k == ep.endpoint_control
          then single_buffered (n.regs ep.endpoint_control)
          else n.regs k;
    })

pub endpoint_started :
    (e : ℕ) (tx : Bool) (mem : Store) (n : Node)
    → (started e tx mem n).usb.endpoint e ≡ advanced (n.usb.endpoint e)
endpoint_started e tx mem n = ground arith

pub regs_started :
    (e : ℕ) (tx : Bool) (mem : Store) (n : Node)
    → let ep = n.usb.endpoint e in
      (b c : ℕ)
      → ep.buffer_control ≡ b
      → ep.endpoint_control ≡ c
      → c ≢ b
      → ((started e tx mem n).regs b ≡ next_word tx ep)
        × ((started e tx mem n).regs c ≡ single_buffered (n.regs c))
        × ((k : ℕ) → b ≢ k → c ≢ k → (started e tx mem n).regs k ≡ n.regs k)
regs_started e tx mem n b c is_b is_c apart =
    (ground arith, ground arith, λ k k_b k_c. ground arith)

pub start_lem :
    (e : ℕ) (n : Node) (packet : List ℕ) (mem : Store)
    → has (n.regs main_ctrl) main_ctrl_host_ndevice ≡ false
    → (n.usb.endpoint e).rx ≡ false
    → fetch n.mem (n.usb.endpoint e).user_buf (next_len (n.usb.endpoint e)) ≡ some packet
    → poke n.mem (forward (n.usb.endpoint e).hw_data_buf (0 * 64)) packet ≡ some mem
    → has (next_word true (n.usb.endpoint e)) buf_ctrl_avail ≡ true
    → start_next_buffer_master e n ≡ (ok tt, started e true mem n)
unfolding start_next_buffer_master
start_lem e n packet mem device tx read written avail =
    let ep = n.usb.endpoint e in
    let n1 = prepared e mem n in
    let n2 : Node = record n1 {
      regs = λ k.
          if k == ep.endpoint_control
          then single_buffered (n.regs ep.endpoint_control)
          else n.regs k;
    } in
    ground (
      arith,
      prepare_lem e n packet mem tx read written,
      set_value_lem e (next_word true ep) n2 avail,
    )
