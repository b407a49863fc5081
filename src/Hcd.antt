-- ===== src/Hcd.antt =====
-- pico_firmware/src/lib/rp2040/hcd_rp2040.c, the part that the event handlers call: the endpoints
-- of the slave, which is a USB host. `ep_pool[i]` is endpoint `32 + i`, and `epx` is `ep_pool[0]`.
pub mod Pool
pub mod Frame
use usbsec.Base.{
  ℕ, zero, suc, ◌+◌, ◌-◌, ◌*◌, ◌/◌, ◌%◌, ◌^◌, Bool, true, false, not, ◌&&◌, Option, none, some,
  ◌==◌, ◌!=◌, if◌then◌else◌, has, bit_or,
}
use usbsec.Node.Sdk.{Pointer, is_null, forward}
use usbsec.Node.State.{HwEndpoint, Event}
use usbsec.Node.Monad.{M, Void, ok, pure, modify, when, emit, runtime_assert, ◌>>=◌, ◌>>◌}
use usbsec.Node.Memory.{dpram, load_byte, load_u16, memcpy}
use usbsec.Regs.{
  addr_endp, int_ep_addr_ctrl, int_ep_ctrl, main_ctrl, sie_ctrl, sie_status, usb_pwr, inte,
  host_int_ep_ctrl, host_int_ep_buffer_ctrl, epx_buf_ctrl, epx_ctrl, epx_data, ep_ctrl_enable,
  ep_ctrl_interrupt_per_buffer, read_reg, write_reg,
}
use usbsec.Endpoint.{endpoint, update, edpt_number, edpt_dir_in, hw_endpoint_xfer_start}
use usbsec.DcdIrq.{clear_endpoints}
use usbsec.DirectionCtrl.{set_dir}

abbrev pub epx : ℕ
epx = 32

-- `SIE_CTRL_BASE`: SOF_EN, KEEP_ALIVE_EN, PULLDOWN_EN and EP0_INT_1BUF
abbrev pub sie_ctrl_base : ℕ
sie_ctrl_base = 2 ^ 9 + 2 ^ 10 + 2 ^ 15 + 2 ^ 29

-- The loop of `get_dev_ep` over the pool from place `i` on, `rounds` places.
unfoldable pub find_endpoint : ℕ → ℕ → (ℕ → HwEndpoint) → ℕ → Option ℕ
find_endpoint zero i pool ep_addr = none
find_endpoint (suc rounds) i pool ep_addr =
    let rest = find_endpoint rounds (i + 1) pool ep_addr in
    if (pool i).configured && (pool i).ep_addr == ep_addr then some i else rest

unfoldable pub get_dev_ep : ℕ → M (Option ℕ)
unfolding find_endpoint
get_dev_ep ep_addr n = (
  ok (if edpt_number ep_addr == 0 then some epx else find_endpoint 15 33 n.usb.endpoint ep_addr),
  n,
)

-- bits 8 and 9 of `SIE_STATUS`
unfoldable pub dev_speed : M ℕ
dev_speed = do status ← read_reg sie_status; pure (status / 2 ^ 8 % 4)

unfoldable pub need_pre : M Bool
unfolding dev_speed
need_pre = do speed ← dev_speed; pure (speed == 1)

-- the loop of `_next_free_interrupt_ep`: the first place that is not configured, or the last one
unfoldable pub first_free : ℕ → ℕ → (ℕ → HwEndpoint) → Option ℕ
first_free zero i pool = none
first_free (suc rounds) i pool =
    let rest = first_free rounds (i + 1) pool in if (pool i).configured then rest else some i

-- With no place free, the last endpoint of the pool is returned as it is.
unfoldable pub next_free_interrupt_ep : M ℕ
unfolding first_free
next_free_interrupt_ep n = elim (first_free 15 33 n.usb.endpoint) [
  | none ↦ (ok 47, n)
  | some e ↦ (update e (λ r. record r { interrupt_num = e - 33 }) >> pure e) n
]

-- Transfer type INTERRUPT is 3.
unfoldable pub hw_endpoint_allocate : ℕ → ℕ → M ℕ
unfolding next_free_interrupt_ep
hw_endpoint_allocate transfer_type ep_addr =
    if transfer_type == 3
    then (do
      e ← next_free_interrupt_ep
      update e (λ r. record r {
        buffer_control = host_int_ep_buffer_ctrl r.interrupt_num;
        endpoint_control = host_int_ep_ctrl r.interrupt_num;
        hw_data_buf = forward dpram (epx_data + 64 * (r.interrupt_num + 2));
      })
      pure e)
    else (do
      e ← if ep_addr == 0 then pure epx else next_free_interrupt_ep
      update e (λ r. record r {
        interrupt_num = 255;
        buffer_control = epx_buf_ctrl;
        endpoint_control = epx_ctrl;
        hw_data_buf = forward dpram epx_data;
      })
      pure e)

-- the part of `_hw_endpoint_init` for an endpoint with an interval
unfoldable pub enable_interrupt_endpoint : ℕ → ℕ → ℕ → M Void
unfolding runtime_assert need_pre
enable_interrupt_endpoint e dev_addr ep_addr = do
  runtime_assert (edpt_dir_in ep_addr)
  pre ← need_pre
  ep ← endpoint e
  let reg = bit_or dev_addr (edpt_number ep_addr * 2 ^ 16)
  write_reg (int_ep_addr_ctrl ep.interrupt_num) (if pre then bit_or reg (2 ^ 26) else reg)
  emit (Event.reg_set int_ep_ctrl (2 ^ (ep.interrupt_num + 1)))

unfoldable pub hw_endpoint_init : ℕ → ℕ → ℕ → ℕ → ℕ → ℕ → M Void
unfolding runtime_assert enable_interrupt_endpoint
hw_endpoint_init e dev_addr ep_addr w_max_packet_size transfer_type bm_interval = do
  ep ← endpoint e
  runtime_assert (ep.endpoint_control != 0)
  runtime_assert (ep.buffer_control != 0)
  runtime_assert (not (is_null ep.hw_data_buf))
  update e (λ r. record r {
    ep_addr = ep_addr;
    dev_addr = dev_addr;
    rx = edpt_dir_in ep_addr;
    next_pid = if edpt_number ep_addr == 0 then 1 else 0;
    w_max_packet_size = w_max_packet_size;
    transfer_type = transfer_type;
  })
  runtime_assert (ep.hw_data_buf.off % 64 == 0)
  let reg =
      bit_or (bit_or (ep_ctrl_enable + ep_ctrl_interrupt_per_buffer) (transfer_type * 2 ^ 26))
        ep.hw_data_buf.off
  let interval = if bm_interval != 0 then (bm_interval - 1) * 2 ^ 16 else 0
  write_reg ep.endpoint_control (bit_or reg interval)
  update e (λ r. record r { configured = true })
  when (bm_interval != 0) (enable_interrupt_endpoint e dev_addr ep_addr)

-- The fields of the descriptor at `ep_desc`: the address, the attributes, the size, and the
-- interval, which is byte 6.
unfoldable pub hcd_edpt_open : Pointer → ℕ → M Bool
unfolding load_byte load_u16 hw_endpoint_allocate hw_endpoint_init
hcd_edpt_open ep_desc dev_addr = do
  addr ← load_byte (forward ep_desc 2)
  attributes ← load_byte (forward ep_desc 3)
  size ← load_u16 (forward ep_desc 4)
  interval ← load_byte (forward ep_desc 6)
  e ← hw_endpoint_allocate (attributes % 4) addr
  hw_endpoint_init e dev_addr addr (size % 2048) (attributes % 4) interval
  pure true

-- START_TRANS, SEND_SETUP, SEND_DATA, RECEIVE_DATA and PREAMBLE_EN are bits 0 to 3 and 6.
abbrev pub xfer_flags : Bool → Bool → ℕ
xfer_flags dir_in pre =
    bit_or (bit_or (bit_or 1 sie_ctrl_base) (if dir_in then 2 ^ 3 else 2 ^ 2))
      (if pre then 2 ^ 6 else 0)

-- `active_ep = ep`
abbrev pub set_active_ep : ℕ → M Void
set_active_ep e = modify (λ n. record n { usb = record (n.usb) { active_ep = e } })

-- `runtime_assert(ep)`
unfoldable pub the_endpoint : Option ℕ → M ℕ
unfolding runtime_assert
the_endpoint none = runtime_assert false >> pure 0
the_endpoint (some e) = pure e

unfoldable pub hcd_edpt_xfer : ℕ → ℕ → Pointer → ℕ → M Bool
unfolding get_dev_ep the_endpoint set_dir hw_endpoint_init hw_endpoint_xfer_start need_pre
hcd_edpt_xfer dev_addr ep_addr buffer buflen = do
  found ← get_dev_ep ep_addr
  e ← the_endpoint found
  set_active_ep e
  set_dir (not (has ep_addr 0x80))
  ep ← endpoint e
  when (ep_addr != ep.ep_addr)
      (hw_endpoint_init e dev_addr ep_addr ep.w_max_packet_size ep.transfer_type 0)
  hw_endpoint_xfer_start e buffer buflen
  write_reg addr_endp (bit_or dev_addr (edpt_number ep_addr * 2 ^ 16))
  pre ← need_pre
  write_reg sie_ctrl (xfer_flags (edpt_dir_in ep_addr) pre)
  pure true

unfoldable pub hcd_setup_send : ℕ → Pointer → M Void
unfolding set_dir memcpy hw_endpoint_allocate hw_endpoint_init runtime_assert need_pre
hcd_setup_send dev_addr setup_packet = do
  set_dir false
  memcpy dpram setup_packet 8
  e ← hw_endpoint_allocate 0 0
  ep ← endpoint e
  hw_endpoint_init e dev_addr 0x00 ep.w_max_packet_size 0 0
  ep' ← endpoint e
  runtime_assert ep'.configured
  set_active_ep e
  update e (λ r. record r { remaining_len = 8; active = true })
  write_reg addr_endp dev_addr
  pre ← need_pre
  write_reg sie_ctrl (bit_or (bit_or sie_ctrl_base 3) (if pre then 2 ^ 6 else 0))

unfoldable pub change_epx_packetsize : ℕ → M Void
change_epx_packetsize size = update epx (λ r. record r { w_max_packet_size = size })

-- `inte`: BUFF_STATUS 4, HOST_CONN_DIS 0, HOST_RESUME 1, STALL 10, TRANS_COMPLETE 3,
-- ERROR_RX_TIMEOUT 6, ERROR_DATA_SEQ 5, EP_STALL_NAK 19
unfoldable pub hcd_init : M Bool
hcd_init = do
  emit Event.usb_init
  write_reg usb_pwr (2 ^ 2 + 2 ^ 3)
  clear_endpoints 32 48
  write_reg main_ctrl 3
  write_reg sie_ctrl sie_ctrl_base
  write_reg inte (2 ^ 4 + 2 ^ 0 + 2 ^ 1 + 2 ^ 10 + 2 ^ 3 + 2 ^ 6 + 2 ^ 5 + 2 ^ 19)
  pure true

-- the interrupt of the controller, for the one root port that there is
unfoldable pub hcd_int_enable : ℕ → M Void
unfolding runtime_assert
hcd_int_enable rhport = runtime_assert (rhport == 0) >> emit (Event.irq_set_enabled true)

unfoldable pub hcd_int_disable : ℕ → M Void
unfolding runtime_assert
hcd_int_disable rhport = runtime_assert (rhport == 0) >> emit (Event.irq_set_enabled false)
