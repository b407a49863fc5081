-- ===== src/Debug.antt =====
-- pico_firmware/src/lib/debug/debug.c and debug.h: which messages are printed. `flags` is an
-- argument here; printing a text is the text, and the mutex, which one core holds from the first
-- byte of an array to the last, has no effect on what is printed. `error` and `runtime_assert` are
-- in Node.Monad.
pub mod Levels
use usbsec.Base.{
  ℕ, zero, suc, ◌+◌, ◌%◌, Bool, true, false, List, [], ◌∷◌, ◌++◌, ◌==◌, ◌!=◌, length, if◌then◌else◌,
}
use usbsec.Node.State.{Role, master, slave}

-- `print_reason`
pub data PrintReason : Type 0 where
  spi_messages sync_reason xfer_complete irq preamble usb_exchanges dcd_buffer setup_reaction
        slave_data controller_raw :
      PrintReason

-- the number of a reason
abbrev pub number : PrintReason → ℕ
number spi_messages = 0
number sync_reason = 1
number xfer_complete = 2
number irq = 3
number preamble = 4
number usb_exchanges = 5
number dcd_buffer = 6
number setup_reaction = 7
number slave_data = 8
number controller_raw = 9

abbrev pub Flags : Type 0
Flags = ℕ → Bool

unfoldable pub set_print_flag : PrintReason → Flags → Flags
set_print_flag reason flags r = if r == number reason then true else flags r

-- the cases of the `switch`, each of which falls through to the next
unfoldable pub from_case_0 : Flags → Flags
unfolding set_print_flag
from_case_0 flags = set_print_flag preamble flags

unfoldable pub from_case_1 : Flags → Flags
unfolding from_case_0 set_print_flag
from_case_1 flags = from_case_0 (set_print_flag setup_reaction flags)

unfoldable pub from_case_2 : Flags → Flags
unfolding from_case_1 set_print_flag
from_case_2 flags =
    from_case_1
      (set_print_flag xfer_complete (set_print_flag slave_data (set_print_flag irq flags)))

unfoldable pub from_case_3 : Flags → Flags
unfolding from_case_2 set_print_flag
from_case_3 flags = from_case_2 (
    set_print_flag controller_raw (
      set_print_flag spi_messages (
        set_print_flag dcd_buffer
          (set_print_flag sync_reason (set_print_flag usb_exchanges flags)))))

-- `level` is `__DEBUG_LEVEL__`; the slave's build leaves the body out.
unfoldable pub init_debug_printing : Role → ℕ → Flags → Flags
unfolding from_case_0 from_case_1 from_case_2 from_case_3
init_debug_printing slave level flags = flags
init_debug_printing master level flags =
    if level == 3
    then from_case_3 flags
    else if level == 2
    then from_case_2 flags
    else if level == 1
    then from_case_1 flags
    else if level == 0
    then from_case_0 flags
    else flags

-- What goes to the serial line: a text, a byte in hexadecimal, the end of a row, or `NULL`.
pub data Printed : Type 0 where
  text : List ℕ → Printed
  hex : ℕ → Printed
  newline null_array : Printed

unfoldable pub debug_print : Role → Flags → PrintReason → List ℕ → List Printed
debug_print slave flags reason format = []
debug_print master flags reason format = if flags (number reason) then text format ∷ [] else []

-- the loop over the bytes, from the one with number `i` on
unfoldable pub print_rows : ℕ → List ℕ → List Printed
print_rows i [] = if i % 8 != 0 then newline ∷ [] else []
print_rows i (b ∷ bytes) =
    let rest = print_rows (i + 1) bytes in hex b ∷ (if i % 8 == 7 then newline ∷ rest else rest)

unfoldable pub debug_print_array : Role → Flags → PrintReason → List ℕ → List Printed
unfolding print_rows
debug_print_array slave flags reason bytes = []
debug_print_array master flags reason bytes =
    if flags (number reason)
    then (if length bytes == 0 then null_array ∷ [] else print_rows 0 bytes)
    else []
