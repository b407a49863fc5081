-- ===== src/Tests/MessageExamples.antt =====
-- Queueing at concrete messages.
use usbsec.Base.{◌≡◌, refl, [], ◌∷◌, arith}
use usbsec.Node.Sdk.{Queue, Message}
use usbsec.Node.Monad.{ok}
use usbsec.Node.Memory.{fetch}
use usbsec.Messages.{tx, queue_add_with_copy, set_queue}
use usbsec.Messages.Enqueue.{copied, with_copy, queue_add_with_copy_lem}
use usbsec.Tests.Fixtures.{list_sdk, list-IsFifo, holding, held}

abbrev message : Message
message = record { e_flag = 0x1; payload_length = 2; payload = held }

queue_add_with_copy_lem_example :
    (q : Queue) × (queue_add_with_copy tx message (holding (7 ∷ 9 ∷ [])) ≡ (
      ok (copied (holding (7 ∷ 9 ∷ [])) message),
      set_queue tx q (with_copy (holding (7 ∷ 9 ∷ [])) (7 ∷ 9 ∷ [])),
    ))
    × (q ≡ copied (holding (7 ∷ 9 ∷ [])) message ∷ [])
unfolding fetch
queue_add_with_copy_lem_example =
    queue_add_with_copy_lem list-IsFifo tx message (holding (7 ∷ 9 ∷ [])) (7 ∷ 9 ∷ []) (omega arith)
      (omega arith) refl refl refl (omega arith)
