-- ===== src/Endpoint/Words.antt =====
-- What the controller reads from the words that rp2040_usb.c writes into a buffer control register.
use usbsec.Base.{
  ℕ, ◌+◌, ◌-◌, ◌≤◌, ◌≡◌, refl, Bool, true, false, not, ◌&&◌, ◌==◌, ◌!=◌, if◌then◌else◌, has,
  bit_and, bit_or, passes, passes-lt, arith, cleared_bit,
}
use usbsec.Regs.{
  buf_ctrl_full, buf_ctrl_last, buf_ctrl_data1_pid, buf_ctrl_sel, buf_ctrl_avail, buf_ctrl_len_mask,
  ep_ctrl_double_buffered, ep_ctrl_interrupt_per_buffer, ep_ctrl_interrupt_per_double_buffer,
}
use usbsec.Endpoint.{pid_bits, last_bits, single_buffered}

-- a word for a packet of `len` bytes; `full` where there are bytes to send
abbrev pub word : Bool → ℕ → ℕ → ℕ → ℕ
word tx len pid last =
    let ready = bit_or (bit_or len buf_ctrl_avail) pid in
    bit_or (bit_or (if tx then bit_or ready buf_ctrl_full else ready) last) buf_ctrl_sel

-- the length, and the two flags that the controller goes by
abbrev pub reads : ℕ → ℕ → Bool → Bool
reads v len full =
    bit_and v buf_ctrl_len_mask == len
    && has v buf_ctrl_avail
    && (if full then has v buf_ctrl_full else not (has v buf_ctrl_full))

abbrev all_reads : ℕ → Bool
all_reads len =
    (reads (word true len 0 0) len true
      && reads (word true len 0 buf_ctrl_last) len true
      && reads (word true len buf_ctrl_data1_pid 0) len true
      && reads (word true len buf_ctrl_data1_pid buf_ctrl_last) len true)
    && (reads (word false len 0 0) len false
        && reads (word false len 0 buf_ctrl_last) len false
        && reads (word false len buf_ctrl_data1_pid 0) len false
        && reads (word false len buf_ctrl_data1_pid buf_ctrl_last) len false)

reads_table : passes all_reads 65 ≡ true
unfolding passes
reads_table = refl

abbrev AreRead : Bool → ℕ → ℕ → Type 0
AreRead tx len v =
    (bit_and v buf_ctrl_len_mask ≡ len) × (has v buf_ctrl_avail ≡ true) × (has v buf_ctrl_full ≡ tx)

read_lem : (tx : Bool) (len v : ℕ) → reads v len tx ≡ true → AreRead tx len v
read_lem true len v h = (ground arith, ground arith, ground arith)
read_lem false len v h = (ground arith, ground arith, ground arith)

by_table :
    (tx data1 last : Bool) (len : ℕ)
    → all_reads len ≡ true
    → reads
        (word tx len (if data1 then buf_ctrl_data1_pid else 0) (if last then buf_ctrl_last else 0))
        len
        tx
      ≡ true
by_table true true true len h = ground arith
by_table true true false len h = ground arith
by_table true false true len h = ground arith
by_table true false false len h = ground arith
by_table false true true len h = ground arith
by_table false true false len h = ground arith
by_table false false true len h = ground arith
by_table false false false len h = ground arith

-- For packets of at most 64 bytes the flags do not disturb the length, nor the length the flags.
pub word_lem :
    (tx : Bool) (len next_pid remaining : ℕ)
    → len ≤ 64
    → AreRead tx len (word tx len (pid_bits next_pid) (last_bits remaining))
word_lem tx len next_pid remaining small =
    read_lem tx len (word tx len (pid_bits next_pid) (last_bits remaining)) (
      by_table tx (next_pid != 0) (remaining == 0) len
        (passes-lt all_reads len (omega arith) reads_table))

-- The endpoint is never left double buffered.
pub single_buffered_lem :
    (ep_ctrl : ℕ) → has (single_buffered ep_ctrl) ep_ctrl_double_buffered ≡ false
single_buffered_lem ep_ctrl =
    let cleared =
      cleared_bit ep_ctrl
        (0xffff_ffff - (ep_ctrl_double_buffered + ep_ctrl_interrupt_per_double_buffer))
        ep_ctrl_interrupt_per_buffer ep_ctrl_double_buffered refl refl in
    ground (arith, cleared)
