-- ===== src/Tests/FakeSpiExamples.antt =====
-- The messages that `fake_spi` and `fake_spi_bkp` queue, by their flags and lengths.
use usbsec.Base.{ℕ, ◌≡◌, refl, [], ◌∷◌, map, length, some}
use usbsec.Node.Sdk.{Message}
use usbsec.Node.State.{Node}
use usbsec.Node.Monad.{ok}
use usbsec.Node.Memory.{fetch, poke}
use usbsec.Messages.FakeSpi.{fake_spi, fake_spi_bkp}
use usbsec.Tests.Fixtures.{list_sdk, start}

abbrev shape : Message → ℕ × ℕ
shape m = (m.e_flag, m.payload_length)

abbrev faked : Node
faked = (fake_spi start).1

fake_spi-returns_test : (fake_spi start).0 ≡ ok tt
unfolding fake_spi fetch poke
fake_spi-returns_test = refl

fake_spi_test :
    map shape faked.rx
    ≡ (4, 0)
      ∷ (2, 8)
      ∷ (4, 0)
      ∷ (0x20, 0)
      ∷ (0x40, 1)
      ∷ (2, 8)
      ∷ (2, 8)
      ∷ (2, 8)
      ∷ (8, 7)
      ∷ (8, 7)
      ∷ (2, 8)
      ∷ (2, 8)
      ∷ (2, 8)
      ∷ (2, 8)
      ∷ (2, 8)
      ∷ (1, 9)
      ∷ []
unfolding fake_spi fetch poke
fake_spi_test = refl

-- the last one is a packet of the keyboard
fake_spi-report_test : faked.mem 31 ≡ some (0 ∷ 0 ∷ 0 ∷ 0 ∷ 0 ∷ 0 ∷ 0 ∷ 0 ∷ 0x81 ∷ [])
unfolding fake_spi fetch poke
fake_spi-report_test = refl

fake_spi_bkp_test : (length (fake_spi_bkp start).1.rx ≡ 19) × ((fake_spi_bkp start).0 ≡ ok tt)
unfolding fake_spi_bkp fetch poke
fake_spi_bkp_test = (refl, refl)
