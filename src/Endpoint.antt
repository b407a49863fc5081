-- ===== src/Endpoint.antt =====
-- pico_firmware/src/lib/rp2040/rp2040_usb.c and rp2040_usb.h: transfers on one hardware endpoint,
-- a packet at a time. An endpoint is named by its place in `UsbState.endpoint`.
-- `_hw_endpoint_lock_update` is empty in the source.
pub mod Frame
pub mod Words
pub mod Start
pub mod Bus
pub mod Wired
pub mod Continue
pub mod Loading
pub mod Sending
pub mod Awaiting
pub mod Collect
pub mod Copies
pub mod Arriving
pub mod Receiving
pub mod Slave
use usbsec.Base.{
  ℕ, ◌+◌, ◌-◌, ◌*◌, ◌/◌, ◌%◌, ◌^◌, min, Bool, true, false, not, ◌&&◌, ◌||◌, ◌==◌, ◌!=◌, ltb,
  if◌then◌else◌, has, bit_and, bit_or, bit_xor,
}
use usbsec.Node.Sdk.{Pointer, null, is_null, forward}
use usbsec.Node.State.{Node, master, slave, HwEndpoint, Event}
use usbsec.Node.Monad.{M, Void, pure, gets, modify, when, emit, error, runtime_assert, ◌>>=◌, ◌>>◌}
use usbsec.Node.Memory.{reserve_bugger, memcpy}
use usbsec.Messages.{is_role}
use usbsec.Regs.{
  main_ctrl, main_ctrl_host_ndevice, buf_ctrl_full, buf_ctrl_last, buf_ctrl_data1_pid, buf_ctrl_sel,
  buf_ctrl_avail, buf_ctrl_len_mask, ep_ctrl_double_buffered, ep_ctrl_interrupt_per_buffer,
  ep_ctrl_interrupt_per_double_buffer, clear_bits, read_reg, write_reg,
}

abbrev pub endpoint : ℕ → M HwEndpoint
endpoint e = gets (λ n. n.usb.endpoint e)

abbrev pub set_endpoint : ℕ → HwEndpoint → Node → Node
set_endpoint e ep n = record n {
  usb = record (n.usb) { endpoint = λ k. if k == e then ep else n.usb.endpoint k };
}

abbrev pub update : ℕ → (HwEndpoint → HwEndpoint) → M Void
update e f = modify (λ n. set_endpoint e (f (n.usb.endpoint e)) n)

-- `tu_edpt_number` and `tu_edpt_dir` of TinyUSB: all but the top bit, and the top bit
abbrev pub edpt_number : ℕ → ℕ
edpt_number addr = addr % 128

abbrev pub edpt_dir_in : ℕ → Bool
edpt_dir_in addr = has addr 0x80

abbrev pub reset_transfer : HwEndpoint → HwEndpoint
reset_transfer ep = record ep {
  active = false;
  remaining_len = 0;
  xferred_len = 0;
  user_buf = null;
  partial = false;
}

unfoldable pub hw_endpoint_reset_transfer_new : ℕ → M Void
hw_endpoint_reset_transfer_new e = update e reset_transfer

unfoldable pub hw_endpoint_buffer_control_update32 : ℕ → ℕ → ℕ → M Void
hw_endpoint_buffer_control_update32 e and_mask or_mask = do
  ep ← endpoint e
  old ← read_reg ep.buffer_control
  let kept = if and_mask != 0 then bit_and old and_mask else 0
  let value = if or_mask != 0 then bit_or kept or_mask else kept
  when (or_mask != 0 && has or_mask buf_ctrl_avail)
      (write_reg ep.buffer_control (clear_bits value buf_ctrl_avail))
  write_reg ep.buffer_control value

unfoldable pub hw_endpoint_buffer_control_set_value32 : ℕ → ℕ → M Void
unfolding hw_endpoint_buffer_control_update32
hw_endpoint_buffer_control_set_value32 e value = hw_endpoint_buffer_control_update32 e 0 value

unfoldable pub hw_endpoint_buffer_control_clear_mask32 : ℕ → ℕ → M Void
unfolding hw_endpoint_buffer_control_update32
hw_endpoint_buffer_control_clear_mask32 e value =
    hw_endpoint_buffer_control_update32 e (0xffff_ffff - value) 0

-- the flags that `prepare_ep_buffer` and the slave's branch below put round a length
abbrev pub pid_bits : ℕ → ℕ
pid_bits next_pid = if next_pid != 0 then buf_ctrl_data1_pid else 0

abbrev pub last_bits : ℕ → ℕ
last_bits remaining = if remaining == 0 then buf_ctrl_last else 0

unfoldable pub prepare_ep_buffer : ℕ → ℕ → M ℕ
unfolding memcpy
prepare_ep_buffer e buf_id = do
  ep ← endpoint e
  let buflen = min ep.remaining_len ep.w_max_packet_size
  let remaining = ep.remaining_len - buflen
  update e (λ r. record r { remaining_len = remaining; next_pid = bit_xor ep.next_pid 1 })
  let buf_ctrl = bit_or (bit_or buflen buf_ctrl_avail) (pid_bits ep.next_pid)
  when (not ep.rx) (do
    memcpy (forward ep.hw_data_buf (buf_id * 64)) ep.user_buf buflen
    update e (λ r. record r { user_buf = forward ep.user_buf buflen }))
  let full = if ep.rx then buf_ctrl else bit_or buf_ctrl buf_ctrl_full
  let last = bit_or full (last_bits remaining)
  pure (if buf_id == 0 then last else last * 2 ^ 16)

-- the endpoint control register for one buffer, and for two
abbrev pub single_buffered : ℕ → ℕ
single_buffered ep_ctrl =
    bit_or (clear_bits ep_ctrl (ep_ctrl_double_buffered + ep_ctrl_interrupt_per_double_buffer))
      ep_ctrl_interrupt_per_buffer

abbrev pub double_buffered : ℕ → ℕ
double_buffered ep_ctrl =
    bit_or (clear_bits ep_ctrl ep_ctrl_interrupt_per_buffer)
      (ep_ctrl_double_buffered + ep_ctrl_interrupt_per_double_buffer)

unfoldable pub start_next_buffer_master : ℕ → M Void
unfolding prepare_ep_buffer hw_endpoint_buffer_control_set_value32
start_next_buffer_master e = do
  ep ← endpoint e
  ep_ctrl ← read_reg ep.endpoint_control
  first ← prepare_ep_buffer e 0
  ctrl ← read_reg main_ctrl
  ep' ← endpoint e
  let force_single = not (has ctrl main_ctrl_host_ndevice)
  if ep'.remaining_len != 0 && not force_single
      then (do
        second ← prepare_ep_buffer e 1
        write_reg ep.endpoint_control (double_buffered ep_ctrl)
        hw_endpoint_buffer_control_set_value32 e (bit_or (bit_or first buf_ctrl_sel) second))
      else (do
        write_reg ep.endpoint_control (single_buffered ep_ctrl)
        hw_endpoint_buffer_control_set_value32 e (bit_or first buf_ctrl_sel))

-- the slave's `next_pid`: a packet of length 0 toggles it, and so does an odd number of packets
abbrev pub next_pid_slave : HwEndpoint → ℕ → ℕ → ℕ
next_pid_slave ep buflen remaining =
    if buflen == 0
    then bit_xor ep.next_pid 1
    else (if has (1 + (remaining + buflen - 1) / ep.w_max_packet_size) 1
        then bit_xor ep.next_pid 1
        else ep.next_pid)

unfoldable pub start_next_buffer_slave : ℕ → M Void
unfolding memcpy hw_endpoint_buffer_control_set_value32
start_next_buffer_slave e = do
  ep ← endpoint e
  let val = bit_or ep.remaining_len buf_ctrl_avail
  let buflen = min ep.remaining_len ep.w_max_packet_size
  let remaining = ep.remaining_len - buflen
  update e (λ r. record r { remaining_len = remaining })
  when (not ep.rx) (memcpy ep.hw_data_buf (forward ep.user_buf ep.xferred_len) buflen)
  let full = if ep.rx then val else bit_or val buf_ctrl_full
  update e (λ r. record r { next_pid = next_pid_slave ep buflen remaining })
  hw_endpoint_buffer_control_set_value32 e
      (bit_or (bit_or full (pid_bits ep.next_pid)) (last_bits remaining))

unfoldable pub hw_endpoint_start_next_buffer : ℕ → M Void
unfolding start_next_buffer_master start_next_buffer_slave
hw_endpoint_start_next_buffer e n = elim n.role [
  | master ↦ start_next_buffer_master e n
  | slave ↦ start_next_buffer_slave e n
]

abbrev pub begin_transfer : Pointer → ℕ → Bool → HwEndpoint → HwEndpoint
begin_transfer buffer total_len is_partial ep = record ep {
  remaining_len = total_len;
  xferred_len = 0;
  active = true;
  user_buf = buffer;
  partial = is_partial;
}

unfoldable pub hw_endpoint_xfer_start : ℕ → Pointer → ℕ → M Void
unfolding hw_endpoint_reset_transfer_new hw_endpoint_start_next_buffer
hw_endpoint_xfer_start e buffer total_len = do
  ep ← endpoint e
  when ep.active (hw_endpoint_reset_transfer_new e)
  update e (begin_transfer buffer total_len false)
  hw_endpoint_start_next_buffer e

unfoldable pub hw_endpoint_xfer_partial : ℕ → Pointer → ℕ → ℕ → M Void
unfolding prepare_ep_buffer hw_endpoint_buffer_control_set_value32 error
hw_endpoint_xfer_partial e buffer total_len flag = do
  update e (begin_transfer buffer total_len true)
  ep ← endpoint e
  ep_ctrl ← read_reg ep.endpoint_control
  first ← prepare_ep_buffer e 0
  ctrl ← read_reg main_ctrl
  ep' ← endpoint e
  let force_single = not (has ctrl main_ctrl_host_ndevice) && not (edpt_dir_in ep.ep_addr)
  when (ep'.remaining_len != 0 && not force_single) error
  write_reg ep.endpoint_control (single_buffered ep_ctrl)
  let buf_ctrl = clear_bits (bit_or first buf_ctrl_sel) buf_ctrl_last
  update e (λ r. record r { partial = false })
  hw_endpoint_buffer_control_set_value32 e
      (if ltb total_len 64 then bit_or buf_ctrl buf_ctrl_last else buf_ctrl)

-- a packet that was received: where it goes, and what the endpoint knows of it afterwards
unfoldable pub sync_received : ℕ → ℕ → M Void
unfolding memcpy
sync_received e xferred_bytes = do
  ep ← endpoint e
  when (is_null ep.user_buf && ltb 0 xferred_bytes)
      (update e (λ r. record r { active = true; user_buf = reserve_bugger }))
  ep' ← endpoint e
  memcpy ep'.user_buf ep'.hw_data_buf xferred_bytes
  role ← gets (λ n. n.role)
  update e (λ r. record r {
    xferred_len = (r.xferred_len + xferred_bytes) % 2 ^ 16;
    user_buf = if is_role role master then forward r.user_buf xferred_bytes else r.user_buf;
  })

unfoldable pub sync_ep_buffer : ℕ → M ℕ
unfolding sync_received runtime_assert error
sync_ep_buffer e = do
  ep ← endpoint e
  buf_ctrl ← read_reg ep.buffer_control
  let xferred_bytes = bit_and buf_ctrl buf_ctrl_len_mask
  if not ep.rx
      then (do
        runtime_assert (not (has buf_ctrl buf_ctrl_full))
        update e (λ r. record r { xferred_len = (r.xferred_len + xferred_bytes) % 2 ^ 16 }))
      else (do when (not (has buf_ctrl buf_ctrl_full)) error; sync_received e xferred_bytes)
  when (ltb xferred_bytes ep.w_max_packet_size || ep.w_max_packet_size == 0)
      (update e (λ r. record r { remaining_len = 0 }))
  pure xferred_bytes

-- whether the transfer is complete
unfoldable pub hw_endpoint_xfer_continue : ℕ → M Bool
unfolding sync_ep_buffer error hw_endpoint_start_next_buffer
hw_endpoint_xfer_continue e = do
  ep ← endpoint e
  if ep.partial then pure false else (do
    sync_ep_buffer e
    ep_ctrl ← read_reg ep.endpoint_control
    when (has ep_ctrl ep_ctrl_double_buffered) (emit (Event.gpio_put 25 true) >> error)
    ep' ← endpoint e
    if ep'.remaining_len == 0 then pure true else (hw_endpoint_start_next_buffer e >> pure false))
