-- ===== src/Tests/KeyboardExamples.antt =====
-- A keyboard's report of eight bytes, from the slave to a master that knows the endpoint.
use usbsec.Base.{◌≡◌, inl, refl, List, [], ◌∷◌, replicate, arith}
use usbsec.Node.State.{Node, slave}
use usbsec.Node.Monad.{ok, stop, Stop}
use usbsec.Messages.{sync}
use usbsec.Messages.Contents.{Content}
use usbsec.Messages.Send.{frames}
use usbsec.Messages.Query.{query}
use usbsec.Messages.Round.Answer.{announced}
use usbsec.Drivers.{idx}
use usbsec.DeviceEvents.{handle_spi_slave_event}
use usbsec.HostEvents.{hcd_event_xfer_complete}
use usbsec.HostEvents.Report.{report}
use usbsec.Journey.Keyboard.{keyboard_travels}
use usbsec.Tests.Fixtures.{list_sdk, list-IsFifo, start}

abbrev reports : List Content
reports = report 0x81 8 0 (replicate 1000 0) ∷ []

abbrev device_side : Node
device_side = record start {
  spi = record {
    flag = 0;
    dummy = 0xff;
    wire_in = frames (announced reports ∷ reports);
    wire_out = [];
  };
  drivers = record (start.drivers) {
    itf_copy = λ i. record { interface_class = 3; interface_protocol = 1 };
  };
}

abbrev host_side : Node
host_side = record start {
  role = slave;
  spi = record { flag = 0; dummy = 0; wire_in = frames (query ∷ []); wire_out = [] };
}

keyboard_travels_example :
    (s1 : Node) × (m1 : Node) × (s2 : Node) × (m2 : Node) × (hcd_event_xfer_complete 7 0x81 8 0
        host_side
      ≡ (ok tt, s1))
    × (sync device_side ≡ (ok tt, m1))
    × (sync s1 ≡ (ok tt, s2))
    × (handle_spi_slave_event m1 ≡ (stop Stop.panic, m2))
    × (m1.spi.wire_out ≡ s1.spi.wire_in)
    × (s2.spi.wire_out ≡ device_side.spi.wire_in)
    × (m2.regs ≡ device_side.regs)
    × (m2.usb ≡ device_side.usb)
unfolding idx
keyboard_travels_example =
    keyboard_travels list-IsFifo (λ mem k. refl) device_side host_side [] [] 7 0x81 8 0
      (replicate 1000 0)
      (((refl, omega arith, (replicate 1025 0, refl, refl)), tt, tt, tt, tt, tt), refl, refl, refl)
      (((refl, omega arith, (replicate 1025 0, refl, refl)), tt, tt, tt, tt, tt), omega arith)
      (refl, refl, refl, refl) tt tt (omega arith) refl refl (omega arith) (inl refl)
      (λ e. absurd (omega arith)) (omega arith) refl refl
