-- ===== src/Tests/RoundExamples.antt =====
-- A round of `sync`: two messages for the slave, and one for the master.
use usbsec.Base.{
  ℕ, ◌<◌, ◌≡◌, refl, some, if◌then◌else◌, ◌==◌, List, [], ◌∷◌, ◌++◌, replicate, arith,
}
use usbsec.Node.State.{Node, slave}
use usbsec.Node.Monad.{ok}
use usbsec.Node.Memory.{first_heap_block}
use usbsec.Messages.{sync}
use usbsec.Messages.Contents.{Content}
use usbsec.Messages.Send.{frames}
use usbsec.Messages.Query.{query}
use usbsec.Messages.Round.Answer.{announced}
use usbsec.Messages.Round.Master.{IsMaster}
use usbsec.Messages.Round.Slave.{IsSlave}
use usbsec.Messages.Round.Whole.{sync_lem}
use usbsec.Tests.Fixtures.{list_sdk, list-IsFifo, start, static_memory}

abbrev requests : List Content
requests = record { flag = 0x102; bytes = 1 ∷ 2 ∷ [] } ∷ record { flag = 0x1; bytes = 7 ∷ [] } ∷ []

abbrev reports : List Content
reports = record { flag = 0x301; bytes = 5 ∷ 0x81 ∷ [] } ∷ []

abbrev asking_side : Node
asking_side = record start {
  next_block = 18;
  mem = λ b.
      if b == 16 then some (1 ∷ 2 ∷ []) else if b == 17 then some (7 ∷ []) else static_memory b;
  tx =
      record { e_flag = 0x102; payload_length = 2; payload = record { block = 16; off = 0 } }
      ∷ record { e_flag = 0x1; payload_length = 1; payload = record { block = 17; off = 0 } }
      ∷ [];
  spi = record {
    flag = 0;
    dummy = 0xff;
    wire_in = frames (announced reports ∷ reports);
    wire_out = [];
  };
}

abbrev answering_side : Node
answering_side = record start {
  role = slave;
  next_block = 17;
  mem = λ b. if b == 16 then some (5 ∷ 0x81 ∷ []) else static_memory b;
  tx = record { e_flag = 0x301; payload_length = 2; payload = record { block = 16; off = 0 } } ∷ [];
  spi = record { flag = 0; dummy = 0; wire_in = frames (requests ++ (query ∷ [])); wire_out = [] };
}

sync_lem_example :
    (m s : Node) × (sync asking_side ≡ (ok tt, m))
    × (sync answering_side ≡ (ok tt, s))
    × (m.spi.wire_out ≡ answering_side.spi.wire_in)
    × (s.spi.wire_out ≡ asking_side.spi.wire_in)
    × (m.spi.wire_in ≡ [])
    × (s.spi.wire_in ≡ [])
    × IsMaster m [] reports
    × IsSlave s [] requests
    × ((k : ℕ) → 1 < k → k < first_heap_block → s.mem k ≡ answering_side.mem k)
sync_lem_example =
    sync_lem list-IsFifo (λ mem k. refl) asking_side answering_side requests reports [] []
      (
        (
          (refl, omega arith, (replicate 1025 0, refl, refl)),
          (
            (refl, refl, refl, refl, omega arith, omega arith),
            ((refl, refl, refl, refl, omega arith, omega arith), tt),
          ),
          tt,
          (((λ e. absurd (omega arith)), tt), (tt, tt)),
          tt,
          tt,
        ),
        refl,
        refl,
        refl,
      )
      (
        (
          (refl, omega arith, (replicate 1025 0, refl, refl)),
          ((refl, refl, refl, refl, omega arith, omega arith), tt),
          tt,
          (tt, tt),
          tt,
          tt,
        ),
        omega arith,
      )
      (refl, refl, refl, refl) (omega arith, omega arith, (omega arith, omega arith, tt))
      (omega arith, omega arith, tt) (refl, (refl, tt)) (omega arith) (omega arith)
