-- ===== src/Regs.antt =====
-- The registers and flag bits of the RP2040's USB controller that the firmware names. The numbers
-- of the controller's registers and the positions of their bits are those of
-- pico_firmware/debug/rp2040.svd; those of the USB memory are the documented values of the
-- RP2040 datasheet, section 4.1.2.5.
use usbsec.Base.{ℕ, ◌+◌, ◌-◌, ◌*◌, ◌^◌, ◌==◌, if◌then◌else◌, bit_and}
use usbsec.Node.Monad.{M, Void, gets, modify}

-- `usb_hw->…`, apart from the USB memory
abbrev pub addr_endp : ℕ
addr_endp = 0x10000

abbrev pub int_ep_addr_ctrl : ℕ → ℕ
int_ep_addr_ctrl i = 0x10004 + 4 * i

abbrev pub main_ctrl : ℕ
main_ctrl = 0x10040

abbrev pub sie_ctrl : ℕ
sie_ctrl = 0x1004c

abbrev pub sie_status : ℕ
sie_status = 0x10050

abbrev pub int_ep_ctrl : ℕ
int_ep_ctrl = 0x10054

abbrev pub buf_status : ℕ
buf_status = 0x10058

abbrev pub ep_stall_arm : ℕ
ep_stall_arm = 0x10068

abbrev pub usb_pwr : ℕ
usb_pwr = 0x10078

abbrev pub inte : ℕ
inte = 0x10090

abbrev pub ints : ℕ
ints = 0x10098

-- The control registers in the USB memory, by their offsets. Device side:
abbrev pub dev_ep_ctrl_in : ℕ → ℕ
dev_ep_ctrl_in i = 8 + 8 * i

abbrev pub dev_ep_ctrl_out : ℕ → ℕ
dev_ep_ctrl_out i = 12 + 8 * i

abbrev pub dev_buf_ctrl_in : ℕ → ℕ
dev_buf_ctrl_in num = 0x80 + 8 * num

abbrev pub dev_buf_ctrl_out : ℕ → ℕ
dev_buf_ctrl_out num = 0x84 + 8 * num

-- Host side:
abbrev pub host_int_ep_ctrl : ℕ → ℕ
host_int_ep_ctrl i = 8 + 8 * i

abbrev pub host_int_ep_buffer_ctrl : ℕ → ℕ
host_int_ep_buffer_ctrl i = 0x88 + 8 * i

abbrev pub epx_buf_ctrl : ℕ
epx_buf_ctrl = 0x80

abbrev pub epx_ctrl : ℕ
epx_ctrl = 0x100

-- offsets of the data buffers
abbrev pub ep0_buf_a : ℕ
ep0_buf_a = 0x100

abbrev pub epx_data : ℕ
epx_data = 0x180

abbrev pub usb_dpram_max : ℕ
usb_dpram_max = 4096

abbrev pub usb_max_endpoints : ℕ
usb_max_endpoints = 16

-- `USB_BUF_CTRL_…`
abbrev pub buf_ctrl_full : ℕ
buf_ctrl_full = 0x8000

abbrev pub buf_ctrl_last : ℕ
buf_ctrl_last = 0x4000

abbrev pub buf_ctrl_data1_pid : ℕ
buf_ctrl_data1_pid = 0x2000

abbrev pub buf_ctrl_sel : ℕ
buf_ctrl_sel = 0x1000

abbrev pub buf_ctrl_stall : ℕ
buf_ctrl_stall = 0x0800

abbrev pub buf_ctrl_avail : ℕ
buf_ctrl_avail = 0x0400

abbrev pub buf_ctrl_len_mask : ℕ
buf_ctrl_len_mask = 0x03ff

-- `EP_CTRL_…`
abbrev pub ep_ctrl_enable : ℕ
ep_ctrl_enable = 2 ^ 31

abbrev pub ep_ctrl_double_buffered : ℕ
ep_ctrl_double_buffered = 2 ^ 30

abbrev pub ep_ctrl_interrupt_per_buffer : ℕ
ep_ctrl_interrupt_per_buffer = 2 ^ 29

abbrev pub ep_ctrl_interrupt_per_double_buffer : ℕ
ep_ctrl_interrupt_per_double_buffer = 2 ^ 28

-- `MAIN_CTRL`, `SIE_CTRL`, `SIE_STATUS`, `INTS`
abbrev pub main_ctrl_host_ndevice : ℕ
main_ctrl_host_ndevice = 2

-- `x & ~m` on 32 bits
abbrev pub clear_bits : ℕ → ℕ → ℕ
clear_bits x m = bit_and x (0xffff_ffff - m)

abbrev pub read_reg : ℕ → M ℕ
read_reg r = gets (λ n. n.regs r)

abbrev pub write_reg : ℕ → ℕ → M Void
write_reg r v = modify (λ n. record n { regs = λ k. if k == r then v else n.regs k })
