-- ===== src/Node/Sdk.antt =====
-- What the firmware takes from outside the repository: the queues of the Pico SDK
-- (pico/util/queue.h) and the room that `malloc` has. `Message` is `spi_message_t` of
-- pico_firmware/src/lib/messages/messages.h.
use usbsec.Base.{ℕ, ◌+◌, ◌<◌, ◌≡◌, Bool, Option, none, some, List, [], ◌∷◌, ◌++◌, length, ◌==◌}

-- A pointer is a block and an offset. Block 0 is never allocated: it is the block of `NULL`.
pub record Pointer : Type 0 where
  pub block : ℕ
  pub off : ℕ

abbrev pub null : Pointer
null = record { block = 0; off = 0 }

abbrev pub is_null : Pointer → Bool
is_null p = p.block == 0

abbrev pub forward : Pointer → ℕ → Pointer
forward p n = record { block = p.block; off = p.off + n }

-- `spi_message_t`
pub record Message : Type 0 where
  pub e_flag : ℕ
  pub payload_length : ℕ
  pub payload : Pointer

-- The bytes of each block that is allocated.
abbrev pub Store : Type 0
Store = ℕ → Option (List ℕ)

-- `SPI_QUEUE_MAX_CAPACITY`
abbrev pub spi_queue_max_capacity : ℕ
spi_queue_max_capacity = 20

-- The memory of a `queue_t`. Which cells it has, and in which order, is the business of the SDK.
abbrev pub Queue : Type 0
Queue = List Message

-- `queue_add` is `queue_add_blocking`, `none` where it would wait for room; the queues are made
-- by `queue_init` with the capacity above. `items` is what a queue holds, oldest first.
-- `malloc_fits` says whether `malloc` finds room for so many bytes.
pub record Sdk : Type 0 where
  pub items : Queue → List Message
  pub queue_new : Queue
  pub queue_add : Queue → Message → Option Queue
  pub queue_try_remove : Queue → Option (Message × Queue)
  pub queue_is_empty : Queue → Bool
  pub queue_level : Queue → ℕ
  pub malloc_fits : Store → ℕ → Bool

-- What pico/util/queue.h documents of these functions.
pub record IsFifo (sdk : Sdk) : Type 0 where
  pub items-new : sdk.items sdk.queue_new ≡ []
  pub queue_add-full :
      (q : Queue) (m : Message)
      → length (sdk.items q) ≡ spi_queue_max_capacity
      → sdk.queue_add q m ≡ none
  pub queue_add-room :
      (q : Queue) (m : Message)
      → length (sdk.items q) < spi_queue_max_capacity
      → (q' : Queue) × (sdk.queue_add q m ≡ some q') × (sdk.items q' ≡ sdk.items q ++ (m ∷ []))
  pub queue_try_remove-empty : (q : Queue) → sdk.items q ≡ [] → sdk.queue_try_remove q ≡ none
  pub queue_try_remove-first :
      (q : Queue) (m : Message) (ms : List Message)
      → sdk.items q ≡ m ∷ ms
      → (q' : Queue) × (sdk.queue_try_remove q ≡ some (m, q')) × (sdk.items q' ≡ ms)
  pub queue_is_empty_lem : (q : Queue) → sdk.queue_is_empty q ≡ (length (sdk.items q) == 0)
  pub queue_level_lem : (q : Queue) → sdk.queue_level q ≡ length (sdk.items q)
