-- ===== src/Messages.antt =====
-- pico_firmware/src/lib/messages/messages.c and messages.h: the queues of messages between the
-- handlers and the SPI link, and `sync`, by which the two microcontrollers exchange them.
-- `send_string_message` builds a message and drops it, and `debug_print` only prints: neither
-- changes the state.
pub mod MsgType
pub mod Contents
pub mod Enqueue
pub mod FakeSpi
pub mod Queued
pub mod Untouched
pub mod Outside
pub mod Round
pub mod Deliver
pub mod Receive
pub mod Send
pub mod SendAll
pub mod Exchange
pub mod Query
pub mod Linked
pub mod Link
use usbsec.Base.{
  ℕ, zero, suc, ◌+◌, ◌%◌, Bool, true, false, not, Option, none, some, List, [], ◌∷◌, ◌==◌,
  if◌then◌else◌, length, has, get_or,
}
use usbsec.Node.Sdk.{Sdk, Queue, Message, Pointer, null, is_null, forward}
use usbsec.Node.State.{Node, Role, master, slave, Event}
use usbsec.Node.Monad.{
  M, Void, ok, stop, Stop, pure, halt, gets, modify, when, emit, runtime_assert, ◌>>=◌, ◌>>◌,
}
use usbsec.Node.Memory.{messages_bugger, malloc, free, memcpy, memset, load, store, load_byte}
use MsgType.{usb_data, slave_data_query, debug_print_as_hex}
use usbsec.Spi.{spi_send_blocking, spi_receive_blocking}

-- `enum gpio_pin`
abbrev pub gpio_slave_device_attached_pin : ℕ
gpio_slave_device_attached_pin = 15

abbrev pub gpio_slave_waiting_pin : ℕ
gpio_slave_waiting_pin = 14

-- the two queues, `tx` and `rx`
pub data Direction : Type 0 where
  tx rx : Direction

abbrev pub queue_of : Direction → Node → Queue
queue_of tx n = n.tx
queue_of rx n = n.rx

abbrev pub set_queue : Direction → Queue → Node → Node
set_queue tx q n = record n { tx = q }
set_queue rx q n = record n { rx = q }

abbrev pub is_role : Role → Role → Bool
is_role master master = true
is_role slave slave = true
is_role _ _ = false

-- `gpio_get`
abbrev pub gpio_get : ℕ → M Bool
gpio_get pin = gets (λ n. n.pin pin)

-- `while (!gpio_get(pin)) tight_loop_contents();`
abbrev pub await_pin : ℕ → M Void
await_pin pin n = elim (n.pin pin) [ true ↦ (ok tt, n) | false ↦ (stop Stop.blocked, n) ]

abbrev pub gpio_put : ℕ → Bool → M Void
gpio_put pin v = emit (Event.gpio_put pin v)

-- `GPIO_OUT` is `true`.
unfoldable pub init_gpio_pin : ℕ → Role → M Void
init_gpio_pin pin in_role = do
  emit (Event.gpio_init pin)
  role ← gets (λ n. n.role)
  emit (Event.gpio_set_dir pin (not (is_role role in_role)))
  when (not (is_role role in_role)) (gpio_put pin false)

module _ ⦃sdk : Sdk⦄ where
  -- The SPI pins are the default ones of the board: RX 16, SCK 18, TX 19, CSN 17.
  unfoldable pub messages_config : M Void
  unfolding init_gpio_pin
  messages_config = do
    init_gpio_pin gpio_slave_waiting_pin master
    init_gpio_pin gpio_slave_device_attached_pin master
    emit (Event.spi_init 7_000_000)
    role ← gets (λ n. n.role)
    emit (Event.spi_set_slave (is_role role slave))
    emit (Event.gpio_set_function 16)
    emit (Event.gpio_set_function 18)
    emit (Event.gpio_set_function 19)
    emit (Event.gpio_set_function 17)
    modify (λ n. record n { tx = sdk.queue_new; rx = sdk.queue_new })

  unfoldable pub queue_add_blocking : Direction → Message → M Void
  queue_add_blocking d m n = elim (sdk.queue_add (queue_of d n) m) [
    | none ↦ (stop Stop.blocked, n)
    | some q ↦ (ok tt, set_queue d q n)
  ]

  unfoldable pub queue_remove_blocking : Direction → M Message
  queue_remove_blocking d n = elim (sdk.queue_try_remove (queue_of d n)) [
    | none ↦ (stop Stop.blocked, n)
    | some (m, q) ↦ (ok m, set_queue d q n)
  ]

  -- The caller's message points to the copy afterwards, so it is returned.
  unfoldable pub queue_add_with_copy : Direction → Message → M Message
  unfolding queue_add_blocking malloc runtime_assert memcpy
  queue_add_with_copy d message = do
    copy ← malloc message.payload_length
    runtime_assert (not (is_null copy))
    memcpy copy message.payload message.payload_length
    let message' = record message { payload = copy }
    queue_add_blocking d message'
    pure message'

  unfoldable pub enqueue_spi_message : Message → M Void
  unfolding queue_add_with_copy
  enqueue_spi_message message = queue_add_with_copy tx message >> pure tt

  -- `none` where the queue is empty
  unfoldable pub dequeue_spi_message : M (Option Message)
  dequeue_spi_message n = elim (sdk.queue_try_remove n.rx) [
    | none ↦ (ok none, n)
    | some (m, q) ↦ (ok (some m), record n { rx = q })
  ]

  unfoldable pub knock_on_slave_edpt : ℕ → ℕ → M Void
  unfolding enqueue_spi_message memset store runtime_assert
  knock_on_slave_edpt edpt len = do
    role ← gets (λ n. n.role)
    runtime_assert (is_role role master)
    memset messages_bugger 0 len
    store (forward messages_bugger len) (edpt ∷ [])
    enqueue_spi_message
        (record { e_flag = 0x8001; payload_length = len + 1; payload = messages_bugger })

unfoldable pub send_message : Pointer → ℕ → ℕ → M Void
unfolding spi_send_blocking
send_message bytes len new_flag = do
  role ← gets (λ n. n.role)
  when (is_role role master) (await_pin gpio_slave_waiting_pin)
  spi_send_blocking bytes len new_flag

unfoldable pub recieve_message : Pointer → M ℕ
unfolding spi_receive_blocking
recieve_message to = do
  role ← gets (λ n. n.role)
  when (is_role role slave) (gpio_put gpio_slave_waiting_pin true)
  len ← spi_receive_blocking to
  when (is_role role slave) (gpio_put gpio_slave_waiting_pin false)
  pure len

module _ ⦃sdk : Sdk⦄ where
  -- the body of the two loops of `sync` that read a message into `bugger` and queue a copy; the
  -- slave's loop makes its test between the two
  unfoldable pub receive_into_bugger : M Message
  unfolding recieve_message
  receive_into_bugger = do
    len ← recieve_message messages_bugger
    flag ← gets (λ n. n.spi.flag)
    pure (record { e_flag = flag; payload_length = len; payload = messages_bugger })

  -- `while (!queue_is_empty(&tx))`; the fuel is one more than the messages in the queue
  unfoldable pub send_all : ℕ → M Void
  unfolding queue_remove_blocking send_message free
  send_all zero n = (stop Stop.spins, n)
  send_all (suc fuel) n = elim (sdk.queue_is_empty n.tx) [
    | true ↦ (ok tt, n)
    | false ↦
        (do
          msg ← queue_remove_blocking tx
          send_message msg.payload msg.payload_length msg.e_flag
          free msg.payload
          send_all fuel)
          n
  ]

  -- `while (rec_count--)` of the master
  unfoldable pub receive_count : ℕ → M Void
  unfolding receive_into_bugger queue_add_with_copy
  receive_count zero = pure tt
  receive_count (suc k) = do msg ← receive_into_bugger; queue_add_with_copy rx msg; receive_count k

  -- `while (true)` of the slave; every round takes at least five bytes from the wire or waits
  unfoldable pub receive_until_query : ℕ → M Void
  unfolding receive_into_bugger queue_add_with_copy
  receive_until_query zero = halt Stop.spins
  receive_until_query (suc fuel) = do
    msg ← receive_into_bugger
    λ n. elim (has n.spi.flag slave_data_query) [
      | true ↦ (ok tt, n)
      | false ↦ (queue_add_with_copy rx msg >> receive_until_query fuel) n
    ]

  -- `while (rec_count--)` of the slave
  unfoldable pub send_count : ℕ → M Void
  unfolding queue_remove_blocking spi_send_blocking free
  send_count zero = pure tt
  send_count (suc k) = do
    msg ← queue_remove_blocking tx
    spi_send_blocking msg.payload msg.payload_length msg.e_flag
    free msg.payload
    send_count k

  unfoldable pub sync_master : M Void
  unfolding send_all send_message recieve_message runtime_assert load_byte receive_count
  sync_master = do
    attached ← gpio_get gpio_slave_device_attached_pin
    when attached (do
      level ← gets (λ n. sdk.queue_level n.tx)
      send_all (suc level)
      gpio_put 6 false
      send_message null 0 slave_data_query
      len ← recieve_message messages_bugger
      runtime_assert (len == 1)
      rec_count ← load_byte messages_bugger
      receive_count rec_count)

  unfoldable pub sync_slave : M Void
  unfolding receive_until_query store load_byte send_message send_count
  sync_slave = do
    wire ← gets (λ n. n.spi.wire_in)
    receive_until_query (suc (length wire))
    gpio_put 6 false
    level ← gets (λ n. sdk.queue_level n.tx)
    store messages_bugger (level % 256 ∷ [])
    rec_count ← load_byte messages_bugger
    send_message messages_bugger 1 0
    send_count rec_count

  unfoldable pub sync : M Void
  unfolding sync_master sync_slave
  sync = do
    gpio_put 6 true
    role ← gets (λ n. n.role)
    λ n. elim role [ master ↦ sync_master n | slave ↦ sync_slave n ]
