-- ===== src/Legacy/Events.antt =====
-- pico_firmware/src/legacy/queueing/event_queue.c and event_queue.h: a ring of 20 events, each
-- with a payload of its own; and spi_queue.c, the first form of the queues of messages. The static
-- ring `q` is an argument here. `sync` is empty in spi_queue.c.
pub mod Copies
use usbsec.Base.{ℕ, ◌+◌, Bool, true, false, not, Option, none, some, ◌==◌, ◌!=◌, if◌then◌else◌}
use usbsec.Node.Sdk.{Sdk, Message, Pointer, null, is_null}
use usbsec.Node.Monad.{M, Void, ok, stop, Stop, pure, halt, modify, when, ◌>>=◌, ◌>>◌}
use usbsec.Node.Memory.{malloc, memcpy, free}
use usbsec.Messages.{tx, rx, queue_add_blocking, queue_remove_blocking}
use usbsec.Legacy.Queue.{Ring, q_put, q_get, q_size}

abbrev pub event_queue_max_capacity : ℕ
event_queue_max_capacity = 20

-- `event_t`
pub record QueuedEvent : Type 0 where
  pub e_flag : ℕ
  pub payload_length : ℕ
  pub payload : Pointer
  pub ep_addr : ℕ

unfoldable pub queue_size : Ring QueuedEvent → ℕ
unfolding q_size
queue_size q = q_size q

unfoldable pub get_from_event_queue : Ring QueuedEvent → Option ℕ × Ring QueuedEvent
unfolding q_get
get_from_event_queue q = q_get q

-- `inserted->payload = …`
abbrev pub set_payload : Ring QueuedEvent → ℕ → Pointer → Ring QueuedEvent
set_payload q slot p = record q {
  loc = λ i. if i == slot then record (q.loc i) { payload = p } else q.loc i;
}

module _ ⦃sdk : Sdk⦄ where
  -- The ring afterwards. `panic` is called without the LED here.
  unfoldable pub create_event : Ring QueuedEvent → QueuedEvent → M (Ring QueuedEvent)
  unfolding q_put malloc memcpy
  create_event q e n = elim (q_put q e) [
    | none ↦ (stop Stop.blocked, n)
    | some (slot, q') ↦ elim (e.payload_length == 0) [
      | true ↦ (ok q', n)
      | false ↦
          (do
            copy ← malloc (e.payload_length + 1)
            λ n'. elim (is_null copy) [
              | true ↦ (stop Stop.panic, n')
              | false ↦
                  (memcpy copy e.payload e.payload_length >> pure (set_payload q' slot copy)) n'
            ])
            n
    ]
  ]

  -- spi_queue.c
  unfoldable pub init_spi_queues : M Void
  init_spi_queues = modify (λ n. record n { tx = sdk.queue_new; rx = sdk.queue_new })

  unfoldable pub enqueue_spi_message : Message → M Void
  unfolding queue_add_blocking
  enqueue_spi_message message = queue_add_blocking tx message

  unfoldable pub dequeue_spi_message : M Message
  unfolding queue_remove_blocking
  dequeue_spi_message = queue_remove_blocking rx

unfoldable pub delete_event : QueuedEvent → M Void
unfolding free
delete_event e = when (e.payload_length != 0) (free e.payload)
