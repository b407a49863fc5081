-- ===== src/Tests/MainsExamples.antt =====
-- The programs of the directory legacy at concrete wires.
use usbsec.Base.{◌≡◌, refl, some, ◌==◌, if◌then◌else◌, List, [], ◌∷◌, replicate, ℕ}
use usbsec.Node.State.{Node, slave}
use usbsec.Node.Memory.{fetch, poke, load}
use usbsec.Node.Monad.{ok}
use usbsec.Regs.{sie_ctrl}
use usbsec.Spi.Frame.{frame}
use usbsec.Legacy.Mains.{test_main, slave_round}
use usbsec.Tests.Fixtures.{list_sdk, start, static_memory}

abbrev told : List ℕ
told = frame (0 ∷ 1 ∷ 2 ∷ 3 ∷ 4 ∷ []) 21

abbrev answered : List ℕ
answered = frame (9 ∷ 1 ∷ 2 ∷ []) 33

-- each side of the test reads what the other sends
abbrev test_master : Node
test_master = record start { spi = record (start.spi) { wire_in = answered } }

abbrev test_slave : Node
test_slave = record start { role = slave; spi = record (start.spi) { wire_in = told } }

test_main_test :
    ((test_main test_master).1.spi.wire_out ≡ told)
    × ((test_main test_slave).1.spi.wire_out ≡ answered)
    × ((test_main test_master).1.mem 9 ≡ some (9 ∷ 1 ∷ 2 ∷ 3 ∷ 4 ∷ []))
unfolding test_main fetch poke load
test_main_test = (refl, refl, refl)

-- A setup packet has eight bytes, so bit 8 of its length is not set: the slave does not send it.
abbrev with_setup : Node
with_setup = record start {
  role = slave;
  mem = λ b. if b == 11 then some (replicate 256 0) else static_memory b;
  spi = record (start.spi) { wire_in = frame (0x80 ∷ 6 ∷ 0 ∷ 1 ∷ 0 ∷ 0 ∷ 18 ∷ 0 ∷ []) 0x0100 };
}

slave_round-ignores_setup_test :
    ((slave_round with_setup).0 ≡ ok tt) × ((slave_round with_setup).1.regs sie_ctrl ≡ 0)
unfolding slave_round fetch poke
slave_round-ignores_setup_test = (refl, refl)
