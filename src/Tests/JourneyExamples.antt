-- ===== src/Tests/JourneyExamples.antt =====
-- GET_DESCRIPTOR, from the host to a device with address 7, while the slave has a report to send.
use usbsec.Base.{
  ℕ, ◌≡◌, inl, inr, refl, some, if◌then◌else◌, ◌==◌, List, [], ◌∷◌, replicate, false, arith,
}
use usbsec.Node.State.{Node, slave}
use usbsec.Node.Monad.{ok}
use usbsec.Node.Memory.{fetch}
use usbsec.Messages.{sync}
use usbsec.Messages.Contents.{Content}
use usbsec.Messages.Send.{frames}
use usbsec.Messages.Query.{query}
use usbsec.Messages.Round.Answer.{announced}
use usbsec.Messages.Round.Master.{IsMaster}
use usbsec.DeviceEvents.{dcd_event_setup_received_new}
use usbsec.DeviceEvents.Setup.{IsRefused}
use usbsec.HostEvents.{slavework}
use usbsec.HostEvents.SetupSent.{IsSent, setup_content}
use usbsec.Journey.Setup.{setup_travels}
use usbsec.Tests.Fixtures.{list_sdk, list-IsFifo, start, static_memory, held}

abbrev get_descriptor : List ℕ
get_descriptor = 0x80 ∷ 6 ∷ 0 ∷ 1 ∷ 0 ∷ 0 ∷ 18 ∷ 0 ∷ []

abbrev reports : List Content
reports = record { flag = 0x301; bytes = 5 ∷ 0x81 ∷ [] } ∷ []

abbrev device_side : Node
device_side = record start {
  mem = λ b. if b == 15 then some get_descriptor else static_memory b;
  spi = record {
    flag = 0;
    dummy = 0xff;
    wire_in = frames (announced reports ∷ reports);
    wire_out = [];
  };
}

abbrev host_side : Node
host_side = record start {
  role = slave;
  next_block = 17;
  mem = λ b. if b == 16 then some (5 ∷ 0x81 ∷ []) else static_memory b;
  tx = record { e_flag = 0x301; payload_length = 2; payload = record { block = 16; off = 0 } } ∷ [];
  spi = record {
    flag = 0;
    dummy = 0;
    wire_in = frames (setup_content get_descriptor ∷ query ∷ []);
    wire_out = [];
  };
  host = record { level = 2; dev_addr = 7; debug_lock = false };
}

not-IsRefused : ¬ IsRefused 0x80 6 256
not-IsRefused (inl (_, other)) = omega arith
not-IsRefused (inr (other, _)) = omega arith

setup_travels_example :
    (m1 : Node) × (m2 : Node) × (s1 : Node) × (s2 : Node) × (dcd_event_setup_received_new held
        device_side
      ≡ (ok tt, m1))
    × (sync m1 ≡ (ok tt, m2))
    × (sync host_side ≡ (ok tt, s1))
    × (slavework s1 ≡ (ok tt, s2))
    × (m2.spi.wire_out ≡ host_side.spi.wire_in)
    × (s1.spi.wire_out ≡ m1.spi.wire_in)
    × IsSent 7 get_descriptor host_side s2
    × (s2.rx ≡ [])
    × IsMaster m2 [] reports
unfolding fetch
setup_travels_example =
    setup_travels list-IsFifo (λ mem k. refl) device_side host_side reports [] held (replicate 8 0)
      0x80 6 0 1 0 0 18 0
      (((refl, omega arith, (replicate 1025 0, refl, refl)), tt, tt, tt, tt, tt), refl, refl, refl)
      (
        (
          (refl, omega arith, (replicate 1025 0, refl, refl)),
          ((refl, refl, refl, refl, omega arith, omega arith), tt),
          tt,
          (tt, tt),
          tt,
          tt,
        ),
        omega arith,
      )
      (refl, refl, refl, refl) (omega arith, omega arith, tt) (omega arith) refl refl refl
      (λ e. absurd (omega arith)) not-IsRefused
      ((replicate 8 0, refl, refl), (replicate 4096 0, refl, refl))
