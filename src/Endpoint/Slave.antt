-- ===== src/Endpoint/Slave.antt =====
-- What the slave tells its controller about the length of a transfer.
use usbsec.Base.{
  ℕ, zero, suc, min, ◌-◌, ◌≡◌, subst, sym, refl, ◌∙◌, ap, Bool, true, false, has, bit_and, bit_or,
  bit_or-0, bit_or_outside, arith, if◌then◌else◌, ◌==◌, ◌!=◌,
}
use Prim.Native.Nat.{bit_and-bitwise}
use usbsec.Endpoint.Wired.{begin_step}
use usbsec.Node.Sdk.{Pointer}
use usbsec.Node.State.{Node, HwEndpoint, slave}
use usbsec.Node.Monad.{ok}
use usbsec.Regs.{
  buf_ctrl_avail, buf_ctrl_last, buf_ctrl_data1_pid, buf_ctrl_len_mask, buf_ctrl_stall,
}
use usbsec.Endpoint.{
  hw_endpoint_start_next_buffer, start_next_buffer_slave, hw_endpoint_xfer_start, set_endpoint,
  next_pid_slave, pid_bits, last_bits, hw_endpoint_buffer_control_set_value32,
  hw_endpoint_buffer_control_update32,
}

abbrev request : ℕ → ℕ → ℕ → ℕ
request len next_pid remaining =
    bit_or (bit_or (bit_or len buf_ctrl_avail) (pid_bits next_pid)) (last_bits remaining)

request_lem :
    (len next_pid remaining d : ℕ)
    → bit_and buf_ctrl_avail d ≡ 0
    → bit_and (pid_bits next_pid) d ≡ 0
    → bit_and (last_bits remaining) d ≡ 0
    → bit_and (request len next_pid remaining) d ≡ bit_and len d
request_lem len next_pid remaining d avail pid last =
    bit_or_outside (bit_or (bit_or len buf_ctrl_avail) (pid_bits next_pid)) (last_bits remaining) d
      last
    ∙ (bit_or_outside (bit_or len buf_ctrl_avail) (pid_bits next_pid) d pid
        ∙ bit_or_outside len buf_ctrl_avail d avail)

flags_outside : (b : Bool) (flag d : ℕ) → bit_and flag d ≡ 0 → bit_and (if b then flag else 0) d ≡ 0
flags_outside true flag d h = h
flags_outside false flag d h = bit_and-bitwise 0 d

-- the register has the word in the end, however it is written
written_lem :
    (e v : ℕ) (n : Node)
    → let (r, n') = hw_endpoint_buffer_control_set_value32 e v n in
      (r ≡ ok tt) × (n'.regs (n.usb.endpoint e).buffer_control ≡ v)
unfolding hw_endpoint_buffer_control_set_value32 hw_endpoint_buffer_control_update32
written_lem e zero n = (ground arith, ground arith)
written_lem e (suc v) n = (ground arith, ground (arith, bit_or-0 (suc v)))

-- the endpoint when the word is written
abbrev asked : ℕ → Node → Node
asked e n =
    let ep = n.usb.endpoint e in
    let buflen = min ep.remaining_len ep.w_max_packet_size in
    let left = ep.remaining_len - buflen in
    let n1 = set_endpoint e (record ep { remaining_len = left }) n in
    set_endpoint e (record (n1.usb.endpoint e) { next_pid = next_pid_slave ep buflen left }) n1

start_step :
    (e : ℕ) (n : Node)
    → n.role ≡ slave
    → (n.usb.endpoint e).rx ≡ true
    → let ep = n.usb.endpoint e in
      let left = ep.remaining_len - min ep.remaining_len ep.w_max_packet_size in
      hw_endpoint_start_next_buffer e n
      ≡ hw_endpoint_buffer_control_set_value32 e
          (request ep.remaining_len ep.next_pid left)
          (asked e n)
unfolding hw_endpoint_start_next_buffer start_next_buffer_slave
start_step e n role rx = ground arith

start_lem :
    (e : ℕ) (n : Node)
    → n.role ≡ slave
    → (n.usb.endpoint e).rx ≡ true
    → let ep = n.usb.endpoint e in
      let left = ep.remaining_len - min ep.remaining_len ep.w_max_packet_size in
      let (r, n') = hw_endpoint_start_next_buffer e n in
      (r ≡ ok tt) × (n'.regs ep.buffer_control ≡ request ep.remaining_len ep.next_pid left)
start_lem e n role rx =
    let ep : HwEndpoint = n.usb.endpoint e in
    let left : ℕ = ep.remaining_len - min ep.remaining_len ep.w_max_packet_size in
    let word : ℕ = request ep.remaining_len ep.next_pid left in
    let step = start_step e n role rx in
    let (returns, has_word) = written_lem e word (asked e n) in
    let same : ((asked e n).usb.endpoint e).buffer_control ≡ ep.buffer_control = ground arith in
    (
      ap (λ r. r.0) step ∙ returns,
      ap (λ r. r.1.regs ep.buffer_control) step
          ∙ (ap ((hw_endpoint_buffer_control_set_value32 e word (asked e n)).1.regs) (sym same)
              ∙ has_word),
    )

-- For an endpoint that the slave reads from: when a transfer of `len` bytes begins, however small the
-- packets are, the length in the register of the buffer is the low ten bits of `len`, and STALL is set
-- where bit 11 of `len` is.
pub slave_length_lem :
    (e : ℕ) (buffer : Pointer) (len : ℕ) (n : Node)
    → n.role ≡ slave
    → (n.usb.endpoint e).rx ≡ true
    → let (r, n') = hw_endpoint_xfer_start e buffer len n in
      let v = n'.regs (n.usb.endpoint e).buffer_control in
      (r ≡ ok tt)
      × (bit_and v buf_ctrl_len_mask ≡ bit_and len buf_ctrl_len_mask)
      × (has v buf_ctrl_stall ≡ has len buf_ctrl_stall)
slave_length_lem e buffer len n role rx =
    let ep : HwEndpoint = n.usb.endpoint e in
    let left : ℕ = len - min len ep.w_max_packet_size in
    let word : ℕ = request len ep.next_pid left in
    let (n1, start, begun, mem, regs, role1) = begin_step e n buffer len in
    let (returns, has_word) = start_lem e n1 (role1 ∙ role) (ap (λ r. r.rx) begun ∙ rx) in
    let is_word : (hw_endpoint_start_next_buffer e n1).1.regs ep.buffer_control ≡ word =
      subst
        (λ (r : HwEndpoint).
          (hw_endpoint_start_next_buffer e n1).1.regs r.buffer_control
          ≡ request r.remaining_len r.next_pid
              (r.remaining_len - min r.remaining_len r.w_max_packet_size))
        begun has_word in
    let written : (hw_endpoint_xfer_start e buffer len n).1.regs ep.buffer_control ≡ word =
      ap (λ r. r.1.regs ep.buffer_control) start ∙ is_word in
    let shows : (d : ℕ)
        → bit_and buf_ctrl_avail d ≡ 0
        → bit_and buf_ctrl_data1_pid d ≡ 0
        → bit_and buf_ctrl_last d ≡ 0
        → bit_and word d ≡ bit_and len d =
      λ d avail pid last.
        request_lem len ep.next_pid left d avail
          (flags_outside (ep.next_pid != 0) buf_ctrl_data1_pid d pid)
          (flags_outside (left == 0) buf_ctrl_last d last) in
    (
      ap (λ r. r.0) start ∙ returns,
      ap (λ v. bit_and v buf_ctrl_len_mask) written ∙ shows buf_ctrl_len_mask refl refl refl,
      ap (λ v. has v buf_ctrl_stall) written
          ∙ ap (λ b. b != 0) (shows buf_ctrl_stall refl refl refl),
    )
