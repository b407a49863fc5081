-- ===== src/Tests/SpiExamples.antt =====
-- The transfers of Spi at concrete bytes.
use usbsec.Base.{◌≡◌, refl, [], ◌∷◌, some, arith, if◌then◌else◌, ◌==◌}
use usbsec.Node.State.{Node}
use usbsec.Node.Monad.{ok}
use usbsec.Node.Memory.{fetch, poke, load}
use usbsec.Spi.{spi_send_blocking, spi_receive_blocking}
use usbsec.Spi.Transfer.{receive-send, received}
use usbsec.Tests.Fixtures.{start, holding, held}

abbrev receiver : Node
receiver = record (holding (0 ∷ 0 ∷ [])) {
  spi = record (start.spi) { wire_in = 0 ∷ 0 ∷ 0xff ∷ 2 ∷ 0 ∷ 0x02 ∷ 0x80 ∷ 7 ∷ 9 ∷ 5 ∷ [] };
}

receive-send_example : spi_receive_blocking held receiver ≡ (
  ok 2,
  received receiver 0x8002 (5 ∷ []) (λ b. if b == 15 then some (7 ∷ 9 ∷ []) else receiver.mem b),
)
unfolding fetch poke spi_send_blocking load
receive-send_example =
    receive-send held held 0x8002 (holding (7 ∷ 9 ∷ [])) receiver (0 ∷ 0 ∷ []) (7 ∷ 9 ∷ []) (5 ∷ [])
      (λ b. if b == 15 then some (7 ∷ 9 ∷ []) else receiver.mem b) refl refl refl (omega arith)
      (omega arith) (omega arith) refl refl
