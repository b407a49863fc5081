-- ===== src/Validator.antt =====
-- pico_firmware/src/lib/validator/validator.c: which devices are refused.
-- `validate_driver_config` does nothing.
use usbsec.Base.{Bool, ◌&&◌, ◌==◌}
use usbsec.Node.State.{InterfaceDesc}
use usbsec.Node.Monad.{M, Void, when, error}

-- a HID interface (class 3) that is a keyboard (protocol 1)
abbrev pub is_keyboard : InterfaceDesc → Bool
is_keyboard itf = itf.interface_class == 0x03 && itf.interface_protocol == 0x01

unfoldable pub check_comm : InterfaceDesc → M Void
unfolding error
check_comm itf = when (is_keyboard itf) error
