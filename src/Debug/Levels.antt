-- ===== src/Debug/Levels.antt =====
-- Which messages a level lets through, and what is printed of an array.
use usbsec.Base.{ℕ, zero, suc, ◌≡◌, refl, ap, false, List, [], ◌∷◌, ◌&&◌, leb, if◌then◌else◌, arith}
use usbsec.Node.State.{Role, master, slave}
use usbsec.Messages.{is_role}
use usbsec.Debug.{
  PrintReason, spi_messages, sync_reason, xfer_complete, irq, preamble, usb_exchanges, dcd_buffer,
  setup_reaction, slave_data, controller_raw, number, Flags, init_debug_printing, Printed, text,
  hex, newline, null_array, debug_print,
}

-- the lowest level that prints a reason
abbrev pub level_of : PrintReason → ℕ
level_of preamble = 0
level_of setup_reaction = 1
level_of irq = 2
level_of slave_data = 2
level_of xfer_complete = 2
level_of usb_exchanges = 3
level_of sync_reason = 3
level_of dcd_buffer = 3
level_of spi_messages = 3
level_of controller_raw = 3

-- before `init_debug_printing`
abbrev pub no_flags : Flags
no_flags r = false

flag_of :
    (level : ℕ) (reason : PrintReason)
    → init_debug_printing master level no_flags (number reason)
      ≡ (leb (level_of reason) level && leb level 3)
unfolding init_debug_printing
flag_of zero preamble = refl
flag_of zero reason = refl
flag_of (suc zero) preamble = refl
flag_of (suc zero) reason = refl
flag_of (suc (suc zero)) preamble = refl
flag_of (suc (suc zero)) reason = refl
flag_of (suc (suc (suc zero))) preamble = refl
flag_of (suc (suc (suc zero))) reason = refl
flag_of (suc (suc (suc (suc level)))) preamble = ground arith
flag_of (suc (suc (suc (suc level)))) reason = ground arith

-- On the master a message is printed exactly if the level of its reason is at most the level that
-- was set, and that is at most 3: a level above 3 prints nothing. The slave never prints.
pub debug_print_lem :
    (role : Role) (level : ℕ) (reason : PrintReason) (format : List ℕ)
    → debug_print role (init_debug_printing role level no_flags) reason format ≡ (
        if is_role role master && (leb (level_of reason) level && leb level 3)
        then text format ∷ []
        else [])
unfolding debug_print
debug_print_lem master level reason format =
    ap (λ b. if b then text format ∷ [] else []) (flag_of level reason)
debug_print_lem slave level reason format = refl

-- the bytes that are printed, and the rows
abbrev pub bytes_of : List Printed → List ℕ
bytes_of [] = []
bytes_of (hex b ∷ ps) = b ∷ bytes_of ps
bytes_of (text t ∷ ps) = bytes_of ps
bytes_of (newline ∷ ps) = bytes_of ps
bytes_of (null_array ∷ ps) = bytes_of ps

abbrev pub rows_of : List Printed → ℕ
rows_of [] = 0
rows_of (newline ∷ ps) = suc (rows_of ps)
rows_of (text t ∷ ps) = rows_of ps
rows_of (hex b ∷ ps) = rows_of ps
rows_of (null_array ∷ ps) = rows_of ps
