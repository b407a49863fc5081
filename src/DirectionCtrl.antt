-- ===== src/DirectionCtrl.antt =====
-- pico_firmware/src/lib/direction_ctrl/direction_ctrl.c: the pins that show the direction of the
-- traffic.
use usbsec.Base.{Bool, true, not}
use usbsec.Node.State.{Event}
use usbsec.Node.Monad.{M, Void, gets, modify, when, emit, ◌>>=◌, ◌>>◌}

-- `IN_PIN` is 22, `OUT_PIN` 21.
unfoldable pub set_dir : Bool → M Void
set_dir is_in = do
  inited ← gets (λ n. n.gpio_inited)
  when (not inited) (do
    emit (Event.gpio_init 22)
    emit (Event.gpio_init 21)
    emit (Event.gpio_set_dir 22 true)
    emit (Event.gpio_set_dir 21 true)
    modify (λ n. record n { gpio_inited = true }))
  emit (Event.gpio_put 22 is_in)
  emit (Event.gpio_put 21 (not is_in))
