-- ===== src/Tests/SetupSentExamples.antt =====
-- A setup packet in the received queue of the slave, and what becomes of it.
use usbsec.Base.{
  ◌≡◌, refl, some, none, true, false, if◌then◌else◌, ◌==◌, List, [], ◌∷◌, replicate, ℕ, arith,
}
use usbsec.Node.State.{Node, slave}
use usbsec.Node.Monad.{ok}
use usbsec.HostEvents.{slavework}
use usbsec.HostEvents.SetupSent.{IsSent, slavework_sends}
use usbsec.Tests.Fixtures.{list_sdk, list-IsFifo, start, static_memory}

abbrev get_descriptor : List ℕ
get_descriptor = 0x80 ∷ 6 ∷ 0 ∷ 1 ∷ 0 ∷ 0 ∷ 18 ∷ 0 ∷ []

abbrev asked : Node
asked = record start {
  role = slave;
  next_block = 17;
  mem = λ b. if b == 16 then some get_descriptor else static_memory b;
  rx =
      record { e_flag = 0x8002; payload_length = 8; payload = record { block = 16; off = 0 } } ∷ [];
  host = record { level = 2; dev_addr = 7; debug_lock = false };
}

slavework_sends_example :
    (n : Node) × (slavework asked ≡ (ok tt, n))
    × IsSent 7 get_descriptor asked n
    × (n.host ≡ record { level = 0; dev_addr = 7; debug_lock = true })
    × (n.mem 16 ≡ none)
    × (n.rx ≡ [])
slavework_sends_example =
    slavework_sends list-IsFifo asked
      (record { e_flag = 0x8002; payload_length = 8; payload = record { block = 16; off = 0 } }) []
      get_descriptor refl (refl, refl, refl, refl, omega arith, omega arith) refl
      ((replicate 8 0, refl, refl), (replicate 4096 0, refl, refl))
