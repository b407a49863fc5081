-- ===== src/HostEvents.antt =====
-- pico_firmware/src/lib/usb_event_handlers/host_event_handlers.c: the events of the slave, which
-- is the USB host that the device sees. `level` follows a control transfer: 0 the setup packet is
-- sent, 1 data is read, 2 the status is acknowledged; 3 is a transfer of another kind.
pub mod Frame
pub mod Queues
pub mod Stages
pub mod Upstream
pub mod SetupSent
pub mod Report
pub mod Invariant
use usbsec.Base.{
  ℕ, ◌+◌, ◌-◌, ◌%◌, ◌^◌, true, false, ◌||◌, none, some, List, [], ◌∷◌, ◌==◌, if◌then◌else◌, has,
  bit_or,
}
use usbsec.Node.Sdk.{Sdk, Message, Pointer, null, forward}
use usbsec.Node.State.{HostState}
use usbsec.Node.Monad.{
  M, Void, ok, Stop, pure, halt, gets, modify, when, error, runtime_assert, ◌>>=◌, ◌>>◌,
}
use usbsec.Node.Memory.{
  host_bugger, host_setup_packet, load_byte, load_u16, memcpy, store, free, local_bytes,
}
use usbsec.Messages.{
  gpio_slave_device_attached_pin, gpio_put, enqueue_spi_message, dequeue_spi_message,
}
use usbsec.Messages.MsgType.{
  usb_data, setup_data, reset_usb, edpt_open, chg_addr, chg_epx_packetsize, is_packet, first_packet,
  last_packet, debug_print_as_hex,
}
use usbsec.Regs.{sie_ctrl, clear_bits, read_reg, write_reg}
use usbsec.Hcd.{hcd_edpt_open, hcd_edpt_xfer, hcd_setup_send, change_epx_packetsize}

abbrev pub update_host : (HostState → HostState) → M Void
update_host f = modify (λ n. record n { host = f n.host })

-- the initial values of `level`, `dev_addr` and `debug_lock`
abbrev pub first_host : HostState
first_host = record { level = 0; dev_addr = 0; debug_lock = false }

abbrev pub host : M HostState
host = gets (λ n. n.host)

-- `CHG_ADDR_SETUP`: SET_ADDRESS with `wValue` 7
abbrev pub chg_addr_setup : List ℕ
chg_addr_setup = 0 ∷ 5 ∷ 7 ∷ 0 ∷ 0 ∷ 0 ∷ 0 ∷ 0 ∷ []

unfoldable pub define_setup_packet : Pointer → M Void
unfolding memcpy
define_setup_packet setup = memcpy host_setup_packet setup 8

-- the cases of the `switch` of `slavework`
unfoldable pub on_reset_usb : M Void
on_reset_usb = do
  update_host (λ h. record h { dev_addr = 0 })
  ctrl ← read_reg sie_ctrl
  write_reg sie_ctrl (bit_or ctrl (2 ^ 13))

unfoldable pub on_setup_data : Message → M Void
unfolding define_setup_packet hcd_setup_send
on_setup_data message = do
  update_host (λ h. record h { debug_lock = true })
  define_setup_packet message.payload
  update_host (λ h. record h { level = 0 })
  h ← host
  hcd_setup_send h.dev_addr host_setup_packet

-- `message.payload_length - 1` is -1 for an empty message: `memcpy` is then given a size beyond
-- any block.
unfoldable pub on_usb_data : Message → M Void
unfolding memcpy load_byte hcd_edpt_xfer
on_usb_data message = do
  update_host (λ h. record h { level = 3 })
  when (message.payload_length == 0) (halt Stop.fault)
  let len = message.payload_length - 1
  memcpy host_bugger message.payload len
  h ← host
  edpt ← load_byte (forward message.payload len)
  hcd_edpt_xfer h.dev_addr edpt host_bugger len
  pure tt

unfoldable pub on_chg_addr : M Void
unfolding local_bytes define_setup_packet hcd_setup_send
on_chg_addr = do
  update_host (λ h. record h { debug_lock = true })
  setup ← local_bytes chg_addr_setup
  define_setup_packet setup
  update_host (λ h. record h { level = 0 })
  h ← host
  hcd_setup_send h.dev_addr host_setup_packet
  update_host (λ r. record r { dev_addr = 7 })

unfoldable pub on_chg_epx_packetsize : Message → M Void
unfolding runtime_assert load_byte change_epx_packetsize
on_chg_epx_packetsize message = do
  runtime_assert (message.payload_length == 1)
  size ← load_byte message.payload
  change_epx_packetsize size

-- `switch (message.e_flag & ~DEBUG_PRINT_AS_HEX)`
unfoldable pub handle_message : Message → M Void
unfolding on_reset_usb hcd_edpt_open on_setup_data on_usb_data on_chg_addr on_chg_epx_packetsize
    error
handle_message message =
    let kind = clear_bits message.e_flag debug_print_as_hex in
    if kind == reset_usb
    then on_reset_usb
    else (if kind == edpt_open
        then (do h ← host; hcd_edpt_open message.payload h.dev_addr; pure tt)
        else (if kind == setup_data
            then on_setup_data message
            else (if kind == usb_data
                then on_usb_data message
                else (if kind == chg_addr
                    then on_chg_addr
                    else (if kind == chg_epx_packetsize
                        then on_chg_epx_packetsize message
                        else (if kind == 0 then pure tt else error))))))

unfoldable pub hcd_event_device_attach : M Void
hcd_event_device_attach = gpio_put gpio_slave_device_attached_pin true

unfoldable pub hcd_event_device_remove : M Void
hcd_event_device_remove = gpio_put gpio_slave_device_attached_pin false

module _ ⦃sdk : Sdk⦄ where
  unfoldable pub slavework : M Void
  unfolding dequeue_spi_message handle_message free
  slavework = do
    next ← dequeue_spi_message
    λ n. elim next [
      | none ↦ (ok tt, n)
      | some message ↦ (do handle_message message; free message.payload) n
    ]

  unfoldable pub send_event_to_master : ℕ → ℕ → ℕ → M Void
  unfolding local_bytes store enqueue_spi_message
  send_event_to_master len ep_addr flag =
      if len == 0
      then (do
        payload ← local_bytes (ep_addr ∷ [])
        enqueue_spi_message
            (record { e_flag = bit_or is_packet flag; payload_length = 1; payload = payload }))
      else (do
        store (forward host_bugger len) (ep_addr ∷ [])
        enqueue_spi_message (record {
          e_flag = bit_or is_packet flag;
          payload_length = (len + 1) % 2 ^ 16;
          payload = host_bugger;
        }))

  -- the read of the data stage: `wLength` bytes, or 64 for a request to the device
  unfoldable pub read_response : ℕ → M Void
  unfolding load_byte load_u16 hcd_edpt_xfer
  read_response dev_addr_curr = do
    request ← load_byte host_setup_packet
    length ← load_u16 (forward host_setup_packet 6)
    hcd_edpt_xfer dev_addr_curr 0x80 host_bugger (if has request 0x80 then length else 64)
    pure tt

  -- Results are 0, `XFER_RESULT_SUCCESS`, and 4, a buffer of a transfer that goes on.
  unfoldable pub on_control_complete : ℕ → ℕ → ℕ → ℕ → M Void
  unfolding runtime_assert read_response load_byte hcd_edpt_xfer send_event_to_master
  on_control_complete dev_addr_curr ep_addr xferred_bytes result = do
    h ← host
    if h.level == 0
        then (do
          runtime_assert (xferred_bytes == 0)
          runtime_assert (result == 0)
          update_host (λ r. record r { level = 1 })
          read_response dev_addr_curr)
        else (when (h.level == 1) (do
          if result == 0
              then (do
                update_host (λ r. record r { level = 2; debug_lock = false })
                request ← load_byte host_setup_packet
                when (has request 0x80) (hcd_edpt_xfer dev_addr_curr 0x00 null 0 >> pure tt))
              else read_response dev_addr_curr
          send_event_to_master xferred_bytes ep_addr
              (bit_or (if result == 0 then last_packet else 0) setup_data)))

  unfoldable pub hcd_event_xfer_complete : ℕ → ℕ → ℕ → ℕ → M Void
  unfolding runtime_assert on_control_complete send_event_to_master
  hcd_event_xfer_complete dev_addr_curr ep_addr xferred_bytes result = do
    runtime_assert (result == 0 || result == 4)
    if ep_addr % 128 == 0
        then on_control_complete dev_addr_curr ep_addr xferred_bytes result
        else (do
          update_host (λ r. record r { debug_lock = false })
          send_event_to_master xferred_bytes ep_addr
              (if result == 0 then last_packet else first_packet))
