-- ===== src/Tests/SetupExamples.antt =====
-- Setup packets that the master is given.
use usbsec.Base.{◌≡◌, refl, inl, [], ◌∷◌, arith, replicate}
use usbsec.Node.State.{Node}
use usbsec.Node.Monad.{ok}
use usbsec.Node.Memory.{fetch}
use usbsec.Messages.MsgType.{chg_addr}
use usbsec.Messages.Queued.{IsQueued}
use usbsec.DeviceEvents.{dcd_event_setup_received_new}
use usbsec.DeviceEvents.Setup.{setup_refused, setup_passed, setup_address}
use usbsec.Tests.Fixtures.{list_sdk, list-IsFifo, holding, held}

-- GET_DESCRIPTOR for the device, and for its qualifier
abbrev asking : Node
asking = holding (0x80 ∷ 6 ∷ 0 ∷ 1 ∷ 0 ∷ 0 ∷ 18 ∷ 0 ∷ [])

abbrev qualifier : Node
qualifier = holding (0x80 ∷ 6 ∷ 0 ∷ 6 ∷ 0 ∷ 0 ∷ 10 ∷ 0 ∷ [])

abbrev addressing : Node
addressing = holding (0 ∷ 5 ∷ 12 ∷ 0 ∷ 0 ∷ 0 ∷ 0 ∷ 0 ∷ [])

setup_refused_example : (dcd_event_setup_received_new held qualifier).1.tx ≡ []
unfolding fetch
setup_refused_example =
    setup_refused held qualifier (replicate 8 0) 0x80 6 0 6 0 0 10 0 refl refl refl refl
      (inl (refl, refl))

setup_passed_example :
    (n' : Node) × (dcd_event_setup_received_new held asking ≡ (ok tt, n'))
    × IsQueued (record { flag = 0x8002; bytes = 0x80 ∷ 6 ∷ 0 ∷ 1 ∷ 0 ∷ 0 ∷ 18 ∷ 0 ∷ [] }) asking n'
unfolding fetch
setup_passed_example =
    setup_passed list-IsFifo held asking (replicate 8 0) 0x80 6 0 1 0 0 18 0 refl refl refl refl
      (omega arith) refl (omega arith) (omega arith) (λ r. ground arith)

setup_address_example :
    (n' : Node) × (dcd_event_setup_received_new held addressing ≡ (ok tt, n'))
    × IsQueued (record { flag = chg_addr; bytes = [] }) addressing n'
unfolding fetch
setup_address_example =
    setup_address list-IsFifo held addressing (replicate 8 0) 0 12 0 0 0 0 0 refl refl refl refl
      (omega arith) refl (omega arith)
