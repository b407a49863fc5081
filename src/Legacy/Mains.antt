-- ===== src/Legacy/Mains.antt =====
-- The programs of pico_firmware/src/legacy: test/main.c, a transfer each way between the two
-- microcontrollers; main_spi.c, the first form of the firmware, by a round of the slave's loop (that of
-- the master only swaps a byte by a call of the SDK); and main.c, which sends one packet with the
-- PIO. Clocks, delays, prints and the functions of lib/usb_phy, which is not in the repository, are
-- left out.
use usbsec.Base.{ℕ, true, false, List, [], ◌∷◌, has, replicate, bit_or}
use usbsec.Node.Sdk.{Sdk, Pointer}
use usbsec.Node.State.{Role, master, slave, Event}
use usbsec.Node.Monad.{M, Void, pure, gets, emit, when, ◌>>=◌, ◌>>◌}
use usbsec.Node.Memory.{dpram, store, memcpy, local_bytes}
use usbsec.Messages.{messages_config}
use usbsec.Regs.{sie_ctrl, write_reg}
use usbsec.Spi.{spi_send_blocking, spi_receive_blocking}
use usbsec.Legacy.PioUsb.{
  Sending, Reading, pio_usb_send_se0_terminated_packet, pio_usb_read_se0_terminated_packet,
}

-- test/main.c: the branches of the two sides
unfoldable pub test_transfer : Role → M Void
unfolding local_bytes store spi_send_blocking spi_receive_blocking
test_transfer master = do
  arr ← local_bytes (0 ∷ 1 ∷ 2 ∷ 3 ∷ 4 ∷ [])
  spi_send_blocking arr 5 21
  spi_receive_blocking arr
  pure tt
test_transfer slave = do
  emit (Event.spi_set_slave true)
  arr ← local_bytes (0 ∷ 0 ∷ 0 ∷ 0 ∷ 0 ∷ [])
  spi_receive_blocking arr
  store arr (9 ∷ [])
  spi_send_blocking arr 3 33

module _ ⦃sdk : Sdk⦄ where
  -- `is_master`, which the repository does not have any more, is taken for the role of the build.
  unfoldable pub test_main : M Void
  unfolding messages_config test_transfer
  test_main = do
    emit (Event.gpio_init 25)
    emit (Event.gpio_set_dir 25 true)
    messages_config
    emit (Event.gpio_put 25 true)
    role ← gets (λ n. n.role)
    test_transfer role
    emit (Event.gpio_put 25 false)

-- main_spi.c: the array `in_buf`
abbrev pub in_buf : Pointer
in_buf = record { block = 11; off = 0 }

-- `USB_SIE_CTRL_SEND_SETUP_BITS | USB_SIE_CTRL_RECEIVE_DATA_BITS`
abbrev pub send_and_receive : ℕ
send_and_receive = bit_or 0x2 0x8

-- one round of the loop of the slave
unfoldable pub slave_round : M Void
unfolding spi_receive_blocking memcpy
slave_round = do
  hdr ← spi_receive_blocking in_buf
  when (has hdr 0x0100) (do memcpy dpram in_buf 8; write_reg sie_ctrl send_and_receive)

-- main.c: the packet that is sent, and what is read of the words that the PIO delivers
unfoldable pub pio_main : List ℕ → Sending × Reading
unfolding pio_usb_send_se0_terminated_packet pio_usb_read_se0_terminated_packet
pio_main words = (
  pio_usb_send_se0_terminated_packet (0x96 ∷ 0x19 ∷ 0x0c ∷ []) 3,
  pio_usb_read_se0_terminated_packet words (replicate 20 0),
)
