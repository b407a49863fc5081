-- ===== src/Tests/TransferExamples.antt =====
-- Transfers of 150 bytes on an endpoint with packets of 64 bytes.
use usbsec.Base.{
  bit_and, has, length, true, Bool, ◌&&◌, ◌==◌, [], ◌∷◌, some, passes, passes-lt, bit_or, ℕ, ◌+◌,
  ◌-◌, ◌≡◌, refl, ap, ◌∙◌, List, replicate, bit_and-0, bit_and_assoc, arith, ◌!=◌,
}
use usbsec.Node.State.{Node, slave}
use usbsec.Node.Monad.{ok, ◌>>◌}
use usbsec.Node.Memory.{fetch}
use usbsec.Regs.{buf_ctrl_avail, buf_ctrl_full, buf_ctrl_len_mask, buf_ctrl_stall, clear_bits}
use usbsec.DcdIrq.{cleared}
use usbsec.Endpoint.{hw_endpoint_xfer_start}
use usbsec.Endpoint.Bus.{IsAck, IsDeliver, give_packets, take_packets, joined, AreCut}
use usbsec.Endpoint.Wired.{Wiring}
use usbsec.Endpoint.Slave.{slave_length_lem}
use usbsec.Endpoint.Sending.{transfer_sends_all}
use usbsec.Endpoint.Receiving.{transfer_receives_all}
use usbsec.Tests.Fixtures.{holding, held}

-- the controller takes both flags back, and leaves the rest
abbrev taken : ℕ → ℕ
taken v = clear_bits v (buf_ctrl_avail + buf_ctrl_full)

abbrev kept_mask : ℕ
kept_mask = 0xffff_ffff - (buf_ctrl_avail + buf_ctrl_full)

taken-IsAck : IsAck taken
taken-IsAck = record {
  not_full = λ v. ap (λ k. k != 0) (bit_and_assoc v kept_mask buf_ctrl_full ∙ bit_and-0 v);
  same_length = λ v. bit_and_assoc v kept_mask buf_ctrl_len_mask;
}

abbrev sending : Node
sending = record (holding (replicate 150 7)) {
  usb = record {
    endpoint = λ e. record cleared {
      w_max_packet_size = 64;
      endpoint_control = 1;
      buffer_control = 2;
      hw_data_buf = record { block = 8; off = 256 };
    };
    active_ep = 32;
    next_buffer_ptr = record { block = 8; off = 1024 };
  };
}

abbrev in_wiring : Wiring
in_wiring = record { mps = 64; hw = record { block = 8; off = 256 }; ctrl = 1; buf = 2 }

transfer_sends_all_example :
    (packets : List (List ℕ)) × (n' : Node) × ((hw_endpoint_xfer_start 3 held 150
          >> take_packets taken 151 3)
        sending
      ≡ (ok packets, n'))
    × (joined packets ≡ replicate 150 7)
    × AreCut 64 packets
    × ((n'.usb.endpoint 3).xferred_len ≡ 150)
    × ((n'.usb.endpoint 3).remaining_len ≡ 0)
unfolding fetch
transfer_sends_all_example =
    transfer_sends_all taken in_wiring 3 sending held (replicate 150 7) taken-IsAck
      (omega arith, omega arith, omega arith, omega arith, omega arith)
      (refl, refl, refl, refl, refl, refl, refl, (replicate 4096 0, refl, omega arith)) refl
      (omega arith) (omega arith)

-- the controller writes the length, and that the buffer is full
abbrev filled : ℕ → ℕ → ℕ
filled v len = bit_or buf_ctrl_full len

abbrev is_filled : ℕ → Bool
is_filled len = has (filled 0 len) buf_ctrl_full && bit_and (filled 0 len) buf_ctrl_len_mask == len

filled_table : passes is_filled 65 ≡ true
unfolding passes
filled_table = refl

filled-IsDeliver : IsDeliver filled
filled-IsDeliver = record {
  full = λ v len small. ground (arith, passes-lt is_filled len (omega arith) filled_table);
  its_length = λ v len small. ground (arith, passes-lt is_filled len (omega arith) filled_table);
}

abbrev receiving : Node
receiving = record (holding (replicate 200 0)) {
  usb = record {
    endpoint = λ e. record cleared {
      rx = true;
      w_max_packet_size = 64;
      endpoint_control = 1;
      buffer_control = 2;
      hw_data_buf = record { block = 8; off = 256 };
    };
    active_ep = 32;
    next_buffer_ptr = record { block = 8; off = 1024 };
  };
}

abbrev arriving : List (List ℕ)
arriving = replicate 64 1 ∷ replicate 64 2 ∷ replicate 22 3 ∷ []

transfer_receives_all_example :
    (n' : Node) × ((hw_endpoint_xfer_start 3 held 200 >> give_packets filled 3 arriving) receiving
      ≡ (ok [], n'))
    × (fetch n'.mem held (length (joined arriving)) ≡ some (joined arriving))
    × ((n'.usb.endpoint 3).xferred_len ≡ length (joined arriving))
transfer_receives_all_example =
    transfer_receives_all filled in_wiring 3 receiving held (replicate 200 0) 200 arriving
      filled-IsDeliver (omega arith, omega arith, omega arith, omega arith, omega arith)
      (refl, refl, refl, refl, refl, refl, refl, (replicate 4096 0, refl, omega arith)) refl
      (omega arith) (omega arith) (omega arith) (omega arith)
      (
        refl,
        omega arith,
        (refl, omega arith, (omega arith, omega arith, λ full. absurd (omega arith))),
      )

-- the slave reads a response of up to 2051 bytes from an endpoint with packets of 8
abbrev reading : Node
reading = record receiving {
  role = slave;
  usb = record (receiving.usb) {
    endpoint = λ e. record (receiving.usb.endpoint e) { w_max_packet_size = 8 };
  };
}

slave_length_lem_example :
    let (r, n') = hw_endpoint_xfer_start 3 held 2051 reading in
    let v = n'.regs 2 in
    (r ≡ ok tt) × (bit_and v buf_ctrl_len_mask ≡ 3) × (has v buf_ctrl_stall ≡ true)
slave_length_lem_example = slave_length_lem 3 held 2051 reading refl refl
