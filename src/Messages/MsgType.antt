-- ===== src/Messages/MsgType.antt =====
-- `msg_type` of pico_firmware/src/lib/messages/messages.h: the flag bits of a message.
use usbsec.Base.{ℕ}

abbrev pub usb_data : ℕ
usb_data = 0x1

abbrev pub setup_data : ℕ
setup_data = 0x2

abbrev pub reset_usb : ℕ
reset_usb = 0x4

abbrev pub edpt_open : ℕ
edpt_open = 0x8

abbrev pub slave_data_query : ℕ
slave_data_query = 0x10

abbrev pub chg_addr : ℕ
chg_addr = 0x20

abbrev pub chg_epx_packetsize : ℕ
chg_epx_packetsize = 0x40

abbrev pub is_packet : ℕ
is_packet = 0x0100

abbrev pub first_packet : ℕ
first_packet = 0x0200

abbrev pub last_packet : ℕ
last_packet = 0x0400

abbrev pub debug_print_as_string : ℕ
debug_print_as_string = 0x4000

abbrev pub debug_print_as_hex : ℕ
debug_print_as_hex = 0x8000
