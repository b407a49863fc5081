-- ===== src/Tests/UpstreamExamples.antt =====
-- Data of the device that the slave passes on.
use usbsec.Base.{◌≡◌, refl, [], ◌∷◌, arith, replicate, bit_or}
use usbsec.Node.State.{Node}
use usbsec.Node.Monad.{ok, stop, Stop}
use usbsec.Messages.MsgType.{is_packet, last_packet}
use usbsec.Messages.Queued.{IsQueued}
use usbsec.HostEvents.{send_event_to_master}
use usbsec.HostEvents.Upstream.{send_event_to_master_lem, send_event_overflows}
use usbsec.Tests.Fixtures.{list_sdk, list-IsFifo, start}

send_event_to_master_lem_example :
    (n' : Node) × (send_event_to_master 2 0x81 last_packet start ≡ (ok tt, n'))
    × IsQueued (record { flag = bit_or is_packet last_packet; bytes = 0 ∷ 0 ∷ 0x81 ∷ [] }) start n'
send_event_to_master_lem_example =
    send_event_to_master_lem list-IsFifo 2 0x81 last_packet start (replicate 1000 0) refl refl
      (omega arith) (omega arith) (λ mem. refl) (omega arith)

send_event_overflows_example :
    send_event_to_master 1000 0x80 last_packet start ≡ (stop Stop.fault, start)
send_event_overflows_example =
    send_event_overflows 1000 0x80 last_packet start (replicate 1000 0) refl refl (omega arith)
