-- ===== src/Main.antt =====
-- pico_firmware/src/main.c: one round of the endless loop of each core, and what runs before.
-- Core 1 runs `sync` alone. The system clock and the serial debug output are left out.
use usbsec.Base.{true, false, ℕ}
use usbsec.Node.Sdk.{Sdk}
use usbsec.Node.State.{master, slave, Event}
use usbsec.Node.Monad.{M, Void, pure, emit, ◌>>◌}
use usbsec.Messages.{gpio_put, messages_config, sync}
use usbsec.DeviceEvents.{handle_spi_slave_event}
use usbsec.DcdIrq.{dcd_init_new, dcd_rp2040_irq_new}
use usbsec.Hcd.{hcd_init}
use usbsec.HostEvents.{slavework}
use usbsec.HcdIrq.{hcd_rp2040_irq_new}

abbrev output_pin : ℕ → M Void
output_pin pin = emit (Event.gpio_init pin) >> emit (Event.gpio_set_dir pin true)

module _ ⦃sdk : Sdk⦄ where
  unfoldable pub core1_loop : M Void
  unfolding sync
  core1_loop = sync

  unfoldable pub core0_loop : M Void
  unfolding hcd_rp2040_irq_new slavework handle_spi_slave_event dcd_rp2040_irq_new
  core0_loop = do
    gpio_put 5 false
    λ n. elim n.role [
      | slave ↦ (do hcd_rp2040_irq_new; gpio_put 5 true; slavework) n
      | master ↦ (do handle_spi_slave_event; gpio_put 5 true; dcd_rp2040_irq_new) n
    ]

  unfoldable pub main : M Void
  unfolding messages_config dcd_init_new hcd_init
  main = do
    output_pin 25
    output_pin 6
    output_pin 5
    output_pin 4
    messages_config
    λ n. elim n.role [ master ↦ dcd_init_new n | slave ↦ (hcd_init >> pure tt) n ]
