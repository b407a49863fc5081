-- ===== src/DeviceEvents.antt =====
-- pico_firmware/src/lib/usb_event_handlers/device_event_handlers.c: the events of the master,
-- which is the USB device that the computer sees. `setup` is the setup packet of the computer:
-- byte 0 is bmRequestType, byte 1 bRequest, and wValue, wIndex and wLength follow.
pub mod Descriptors
pub mod Setup
pub mod Refusal
pub mod Printing
use usbsec.Base.{
  ℕ, zero, suc, ◌+◌, ◌%◌, true, false, ◌&&◌, ◌||◌, Option, none, some, ◌==◌, ltb, if◌then◌else◌,
  has,
}
use usbsec.Node.Sdk.{Sdk, Message, Pointer, null, forward}
use usbsec.Node.State.{DeviceState, reading_response, writing_response, Event}
use usbsec.Node.Monad.{
  M, Void, ok, stop, Stop, pure, gets, modify, when, emit, runtime_assert, ◌>>=◌, ◌>>◌,
}
use usbsec.Node.Memory.{device_setup, dpram, load, load_byte, load_u16, memcpy, free}
use usbsec.Node.Printf.{printf}
use usbsec.Messages.{
  gpio_slave_device_attached_pin, await_pin, enqueue_spi_message, dequeue_spi_message,
  knock_on_slave_edpt,
}
use usbsec.Messages.MsgType.{
  setup_data, is_packet, last_packet, debug_print_as_string, chg_addr, reset_usb,
}
use usbsec.Dcd.{dcd_edpt_xfer_new, dcd_edpt_open_new, dcd_edpt0_status_complete}
use usbsec.Drivers.{
  register_driver_for_edpt, handle_spi_slave_event_with_driver,
  handle_device_xfer_complete_with_driver,
}
use usbsec.Aggregator.{
  register_response, get_concatenated_response, get_concatenated_response_len, send_packet_upstream,
  set_max_packet_size,
}

abbrev pub update_device : (DeviceState → DeviceState) → M Void
update_device f = modify (λ n. record n { device = f n.device })

-- the fields of `setup`
unfoldable pub bm_request_type : M ℕ
unfolding load_byte
bm_request_type = load_byte device_setup

unfoldable pub b_request : M ℕ
unfolding load_byte
b_request = load_byte (forward device_setup 1)

unfoldable pub w_value : M ℕ
unfolding load_u16
w_value = load_u16 (forward device_setup 2)

unfoldable pub w_index : M ℕ
unfolding load_u16
w_index = load_u16 (forward device_setup 4)

unfoldable pub w_length : M ℕ
unfolding load_u16
w_length = load_u16 (forward device_setup 6)

module _ ⦃sdk : Sdk⦄ where
  -- One descriptor of a configuration response, at `here`: an interface descriptor (type 4) is
  -- remembered, an endpoint descriptor (type 5) is opened on both sides and gets a driver. The
  -- interface descriptor that is current afterwards.
  unfoldable pub handle_descriptor : Pointer → Pointer → M Pointer
  unfolding load_byte dcd_edpt_open_new register_driver_for_edpt enqueue_spi_message
  handle_descriptor here itf = do
    type ← load_byte (forward here 1)
    let itf' = if type == 0x04 then here else itf
    when (type == 0x05) (do
      dcd_edpt_open_new here
      d ← gets (λ n. n.device)
      register_driver_for_edpt here itf' d.max_packet_size
      length ← load_byte here
      enqueue_spi_message (record { e_flag = 0x8008; payload_length = length; payload = here }))
    pure itf'

  -- `while (pos < len)`. Every descriptor that has a length brings `pos` nearer to `len`, so a
  -- fuel of `len + 1` runs out only where a length is 0, at which the source's loop never ends.
  unfoldable pub handle_descriptors : ℕ → ℕ → ℕ → Pointer → M Void
  unfolding load_byte handle_descriptor
  handle_descriptors zero len pos itf n = (stop Stop.spins, n)
  handle_descriptors (suc fuel) len pos itf n = elim (ltb pos len) [
    | false ↦ (ok tt, n)
    | true ↦
        (do
          let here = forward get_concatenated_response pos
          itf' ← handle_descriptor here itf
          step ← load_byte here
          handle_descriptors fuel len (pos + step) itf')
          n
  ]

  -- the part of `handle_setup_response` that comes after its early return
  unfoldable pub finish_setup_response : ℕ → M Void
  unfolding w_value w_length w_index handle_descriptors knock_on_slave_edpt
  finish_setup_response len = do
    value ← w_value
    length ← w_length
    when (value == 0x0200 && ltb 9 length) (handle_descriptors (suc len) len 0 null)
    index ← w_index
    d ← gets (λ n. n.device)
    when (value == 0x2200 && index == 0x01)
        (knock_on_slave_edpt ((index + 0x80) % 256) d.max_packet_size)

  -- the size of the packets of endpoint 0, from byte 7 of the device descriptor
  unfoldable pub adopt_packet_size : M Void
  unfolding load_byte enqueue_spi_message set_max_packet_size
  adopt_packet_size = do
    let from = forward get_concatenated_response 7
    enqueue_spi_message (record { e_flag = 0x8040; payload_length = 1; payload = from })
    size ← load_byte from
    update_device (λ d. record d { max_packet_size = size })
    set_max_packet_size size

  unfoldable pub handle_setup_response : M Void
  unfolding b_request w_value load_byte adopt_packet_size finish_setup_response
  handle_setup_response = do
    len ← get_concatenated_response_len
    request ← b_request
    value ← w_value
    when (request == 0x6 && value == 0x100) adopt_packet_size
    current ← load_byte (forward dpram 1)
    when (if current == 0x5 then false else true) (finish_setup_response len)

  -- a packet of the device, whose last byte is the address of its endpoint
  unfoldable pub handle_packet : Message → M Void
  unfolding load_byte runtime_assert register_response handle_setup_response bm_request_type
      dcd_edpt_xfer_new handle_spi_slave_event_with_driver free
  handle_packet msg = do
    let len = (msg.payload_length + 0xffff) % 0x1_0000
    ep_addr ← load_byte (forward msg.payload len)
    let msg' = record msg { payload_length = len }
    runtime_assert (has msg.e_flag is_packet)
    if has msg.e_flag setup_data
        then (do
          register_response msg'
          when (has msg.e_flag last_packet) (do
            handle_setup_response
            update_device (λ d. record d { setup_response_dir = writing_response })
            request ← bm_request_type
            when (has request 0x80) (dcd_edpt_xfer_new 0x00 null 0 >> pure tt)))
        else handle_spi_slave_event_with_driver msg' ep_addr
    free msg'.payload

  -- The messages in front that the slave sent to be printed are printed and freed; the next one.
  -- The fuel is one more than the messages in the queue.
  unfoldable pub next_packet : ℕ → M (Option Message)
  unfolding dequeue_spi_message printf free
  next_packet zero n = (stop Stop.spins, n)
  next_packet (suc fuel) n =
      (do
        next ← dequeue_spi_message
        λ n'. elim next [
          | none ↦ (ok none, n')
          | some msg ↦ elim (msg.e_flag == debug_print_as_string) [
            | false ↦ (ok (some msg), n')
            | true ↦ (do printf msg.payload; free msg.payload; next_packet fuel) n'
          ]
        ])
        n

  unfoldable pub handle_spi_slave_event : M Void
  unfolding send_packet_upstream next_packet handle_packet
  handle_spi_slave_event = do
    d ← gets (λ n. n.device)
    λ n. elim d.setup_response_dir [
      | writing_response ↦
          (do
            done ← send_packet_upstream
            when done (update_device (λ r. record r { setup_response_dir = reading_response })))
            n
      | reading_response ↦
          (do
            level ← gets (λ m. sdk.queue_level m.rx)
            next ← next_packet (suc level)
            λ m. elim next [ none ↦ (ok tt, m) | some msg ↦ handle_packet msg m ])
            n
    ]

  -- what is done with a setup packet: SET_ADDRESS is replaced, a request for the device qualifier
  -- and a report to the device are not passed on, and all else is
  unfoldable pub answer_setup : ℕ → ℕ → ℕ → M Void
  unfolding enqueue_spi_message dcd_edpt_xfer_new
  answer_setup type request value =
      if request == 0x5
      then enqueue_spi_message (record { e_flag = chg_addr; payload_length = 0; payload = null })
      else (if request == 0x6 && value == 0x0600
          then (dcd_edpt_xfer_new 0x80 null 0 >> pure tt)
          else (if type == 0x21 && request == 0x9
              then (dcd_edpt_xfer_new 0x00 null 0 >> pure tt)
              else enqueue_spi_message
                  (record { e_flag = 0x8002; payload_length = 8; payload = device_setup })))

  unfoldable pub dcd_event_setup_received_new : Pointer → M Void
  unfolding memcpy bm_request_type b_request w_value answer_setup
  dcd_event_setup_received_new p_setup = do
    await_pin gpio_slave_device_attached_pin
    memcpy device_setup p_setup 8
    type ← bm_request_type
    request ← b_request
    value ← w_value
    answer_setup type request value

  unfoldable pub dcd_event_xfer_complete_new : ℕ → ℕ → M Void
  unfolding b_request dcd_edpt0_status_complete handle_device_xfer_complete_with_driver
  dcd_event_xfer_complete_new ep_addr xferred_bytes = do
    request ← b_request
    if request == 0x5 && ep_addr == 0x80
        then dcd_edpt0_status_complete dpram
        else (if ep_addr == 0 || ep_addr == 0x80
            then pure tt
            else handle_device_xfer_complete_with_driver ep_addr xferred_bytes)

  unfoldable pub device_event_bus_reset : M Void
  unfolding enqueue_spi_message
  device_event_bus_reset = do
    await_pin gpio_slave_device_attached_pin
    enqueue_spi_message (record { e_flag = reset_usb; payload_length = 0; payload = null })
