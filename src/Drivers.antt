-- ===== src/Drivers.antt =====
-- pico_firmware/src/lib/drivers/drivers.c: the drivers of the master, by endpoint. Its arrays
-- `edpt_driver` and `itf_copy` have 32 places; an index beyond them is a fault.
pub mod Index
pub mod Keyboard
use usbsec.Base.{
  ℕ, ◌+◌, ◌-◌, ◌%◌, ◌^◌, Bool, true, false, not, ◌&&◌, [], ◌∷◌, ◌++◌, ◌==◌, ltb, if◌then◌else◌, has,
  bit_or, replicate, get_or,
}
use usbsec.Node.Sdk.{Sdk, Message, Pointer, forward}
use usbsec.Node.State.{Driver, illegal, mass_storage, hid, InterfaceDesc, DriverState}
use usbsec.Node.Monad.{M, Void, ok, stop, Stop, pure, gets, modify, when, error, ◌>>=◌, ◌>>◌}
use usbsec.Node.Memory.{drivers_bugger, load, load_byte, store, local_bytes}
use usbsec.Messages.{enqueue_spi_message, knock_on_slave_edpt}
use usbsec.Dcd.{dcd_edpt_xfer_new, dcd_edpt_xfer_partial}
use usbsec.Validator.{check_comm}

abbrev pub drivers : M DriverState
drivers = gets (λ n. n.drivers)

abbrev pub update_drivers : (DriverState → DriverState) → M Void
update_drivers f = modify (λ n. record n { drivers = f n.drivers })

-- `~edpt & 0x80`
abbrev pub is_out : ℕ → Bool
is_out edpt = not (has edpt 0x80)

unfoldable pub idx : ℕ → ℕ
idx edpt = if has edpt 0x80 then bit_or (edpt - 0x80) 0x10 else edpt

-- an access to place `i` of an array of 32
unfoldable pub check_index : ℕ → M Void
check_index i n = elim (ltb i 32) [ true ↦ (ok tt, n) | false ↦ (stop Stop.fault, n) ]

-- `edpt_driver[idx(edpt)] = …`
unfoldable pub set_driver : ℕ → Driver → M Void
unfolding idx
set_driver edpt v =
    update_drivers (λ d. record d { driver = λ i. if i == idx edpt then v else d.driver i })

module _ ⦃sdk : Sdk⦄ where
  unfoldable pub msc_spi : Message → ℕ → M Void
  unfolding knock_on_slave_edpt dcd_edpt_xfer_new dcd_edpt_xfer_partial
  msc_spi message edpt =
      if is_out edpt
      then (do
        d ← drivers
        knock_on_slave_edpt d.other_edpt d.max_packet_size
        dcd_edpt_xfer_new edpt drivers_bugger d.max_packet_size
        pure tt)
      else (do
        update_drivers (λ d. record d { permit_0x81 = true; count_0x81 = d.count_0x81 + 1 })
        dcd_edpt_xfer_partial edpt message.payload message.payload_length message.e_flag)

  unfoldable pub msc_xfer : ℕ → ℕ → M Void
  unfolding store local_bytes enqueue_spi_message
  msc_xfer edpt xferred_bytes =
      if is_out edpt
      then (do
        update_drivers (λ d. record d { permit_0x81 = false; count_0x81 = 0 })
        store (forward drivers_bugger xferred_bytes) (edpt ∷ [])
        enqueue_spi_message (record {
          e_flag = 0x8001;
          payload_length = (xferred_bytes + 1) % 2 ^ 16;
          payload = drivers_bugger;
        }))
      else (do
        d ← drivers
        when (d.permit_0x81 && not (xferred_bytes == 13 && ltb 0 d.count_0x81)) (do
          arr ← local_bytes (replicate 64 0 ++ (edpt ∷ replicate 35 0))
          enqueue_spi_message (record { e_flag = 0x1; payload_length = 65; payload = arr })))

  unfoldable pub hid_spi : Message → ℕ → M Void
  unfolding dcd_edpt_xfer_new
  hid_spi message edpt = do dcd_edpt_xfer_new edpt message.payload message.payload_length; pure tt

  unfoldable pub hid_xfer : ℕ → M Void
  unfolding knock_on_slave_edpt
  hid_xfer edpt = do d ← drivers; knock_on_slave_edpt edpt d.max_packet_size

  -- `edpt` points to an endpoint descriptor (its address is byte 2), `itf` to an interface
  -- descriptor of 9 bytes (the class is byte 5, the protocol byte 7)
  unfoldable pub register_driver_for_edpt : Pointer → Pointer → ℕ → M Void
  unfolding load_byte load check_index idx set_driver dcd_edpt_xfer_new error
  register_driver_for_edpt edpt itf new_mps = do
    update_drivers (λ d. record d { max_packet_size = new_mps })
    ep_addr ← load_byte (forward edpt 2)
    desc ← load itf 9
    check_index (idx ep_addr)
    let class = get_or desc 5 0
    let copy : InterfaceDesc = record {
      interface_class = class;
      interface_protocol = get_or desc 7 0;
    }
    update_drivers
        (λ d. record d { itf_copy = λ i. if i == idx ep_addr then copy else d.itf_copy i })
    (if class == 0x03
        then set_driver ep_addr hid
        else (if class == 0x08
            then (do
              set_driver ep_addr mass_storage
              if is_out ep_addr
                  then (dcd_edpt_xfer_new ep_addr drivers_bugger 64 >> pure tt)
                  else update_drivers (λ d. record d { other_edpt = ep_addr }))
            else error))

  unfoldable pub handle_spi_slave_event_with_driver : Message → ℕ → M Void
  unfolding check_index idx check_comm msc_spi hid_spi error
  handle_spi_slave_event_with_driver message edpt = do
    check_index (idx edpt)
    d ← drivers
    check_comm (d.itf_copy (idx edpt))
    λ n. elim (d.driver (idx edpt)) [
      | mass_storage ↦ msc_spi message edpt n
      | hid ↦ hid_spi message edpt n
      | illegal ↦ error n
    ]

  unfoldable pub handle_device_xfer_complete_with_driver : ℕ → ℕ → M Void
  unfolding check_index idx msc_xfer hid_xfer error
  handle_device_xfer_complete_with_driver edpt xferred_bytes = do
    check_index (idx edpt)
    d ← drivers
    λ n. elim (d.driver (idx edpt)) [
      | mass_storage ↦ msc_xfer edpt xferred_bytes n
      | hid ↦ hid_xfer edpt n
      | illegal ↦ error n
    ]
