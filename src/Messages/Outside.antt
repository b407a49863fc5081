-- ===== src/Messages/Outside.antt =====
-- What the link between the two microcontrollers has nothing to do with.
use usbsec.Base.{ℕ, zero, suc, Bool, List, has, arith, ◌≡◌, refl}
use usbsec.Node.Sdk.{Sdk, Message, Pointer}
use usbsec.Node.State.{
  Node, Role, Event, UsbState, DriverState, AggregatorState, DeviceState, HostState,
}
use usbsec.Node.Monad.{M, emit, runtime_assert, Stop}
use usbsec.Messages.MsgType.{slave_data_query}
use usbsec.Node.Keeps.{
  Keeps, Keeps-same, Keeps-bind, Keeps-role, Keeps-test, Keeps-pure, Keeps-halt, composed,
}
use usbsec.Node.Memory.{free, load, store, load_byte, malloc, memcpy}
use usbsec.Spi.{spi_send_blocking, spi_receive_blocking}
use usbsec.Messages.{
  tx, rx, recieve_message, receive_into_bugger, receive_until_query, receive_count,
  queue_add_blocking, queue_add_with_copy, await_pin, queue_remove_blocking, send_message, send_all,
  send_count, sync, sync_master, sync_slave,
}

-- the state of the USB controller and of the handlers, with the role and the pins that are read
abbrev pub OutsidePart : Type 0
OutsidePart =
    Role × (ℕ → Bool) × (ℕ → ℕ) × UsbState × DriverState × AggregatorState × DeviceState × HostState

abbrev pub outside_part : Node → OutsidePart
outside_part n = (n.role, n.pin, n.regs, n.usb, n.drivers, n.aggregator, n.device, n.host)

abbrev KeepsOutside : {A : Type 0} → (OutsidePart → Type 0) → M A → Type 0
KeepsOutside P m = Keeps outside_part P m

module _ {P : OutsidePart → Type 0} where
  emit-Keeps : (e : Event) → KeepsOutside P (emit e)
  emit-Keeps e = record { after = λ n h. h }

  spi_send_blocking-Keeps :
      (p : Pointer) (len flag : ℕ) → KeepsOutside P (spi_send_blocking p len flag)
  unfolding spi_send_blocking load
  spi_send_blocking-Keeps p len flag = Keeps-same _ (λ n. ground arith)

  spi_receive_blocking-Keeps : (p : Pointer) → KeepsOutside P (spi_receive_blocking p)
  unfolding spi_receive_blocking store
  spi_receive_blocking-Keeps p = Keeps-same _ (λ n. ground arith)

  await_pin-Keeps : (pin : ℕ) → KeepsOutside P (await_pin pin)
  await_pin-Keeps pin = Keeps-same _ (λ n. ground arith)

  free-Keeps : (p : Pointer) → KeepsOutside P (free p)
  unfolding free
  free-Keeps p = Keeps-same _ (λ n. ground arith)

  load_byte-Keeps : (p : Pointer) → KeepsOutside P (load_byte p)
  unfolding load_byte load
  load_byte-Keeps p = Keeps-same _ (λ n. ground arith)

  store-Keeps : (p : Pointer) (bs : List ℕ) → KeepsOutside P (store p bs)
  unfolding store
  store-Keeps p bs = Keeps-same _ (λ n. ground arith)

  memcpy-Keeps : (to from : Pointer) (len : ℕ) → KeepsOutside P (memcpy to from len)
  unfolding memcpy load store
  memcpy-Keeps to from len = Keeps-same _ (λ n. ground arith)

  runtime_assert-Keeps : (b : Bool) → KeepsOutside P (runtime_assert b)
  unfolding runtime_assert
  runtime_assert-Keeps b = Keeps-same _ (λ n. ground arith)

  send_message-Keeps : (p : Pointer) (len flag : ℕ) → KeepsOutside P (send_message p len flag)
  unfolding send_message
  send_message-Keeps p len flag = search (composed, await_pin-Keeps, spi_send_blocking-Keeps)

  recieve_message-Keeps : (p : Pointer) → KeepsOutside P (recieve_message p)
  unfolding recieve_message
  recieve_message-Keeps p = search (composed, emit-Keeps, spi_receive_blocking-Keeps) depth 20

  module _ ⦃sdk : Sdk⦄ where
    queue_remove_blocking-Keeps : KeepsOutside P (queue_remove_blocking tx)
    unfolding queue_remove_blocking
    queue_remove_blocking-Keeps = Keeps-same _ (λ n. ground arith)

    queue_add_blocking-Keeps : (m : Message) → KeepsOutside P (queue_add_blocking rx m)
    unfolding queue_add_blocking
    queue_add_blocking-Keeps m = Keeps-same _ (λ n. ground arith)

    malloc-Keeps : (len : ℕ) → KeepsOutside P (malloc len)
    unfolding malloc
    malloc-Keeps len = Keeps-same _ (λ n. ground arith)

    queue_add_with_copy-Keeps : (m : Message) → KeepsOutside P (queue_add_with_copy rx m)
    unfolding queue_add_with_copy
    queue_add_with_copy-Keeps m =
        search
          (composed, malloc-Keeps, memcpy-Keeps, runtime_assert-Keeps, queue_add_blocking-Keeps)
          depth 20

    receive_into_bugger-Keeps : KeepsOutside P receive_into_bugger
    unfolding receive_into_bugger
    receive_into_bugger-Keeps = search (composed, recieve_message-Keeps) depth 20

    send_count-Keeps : (k : ℕ) → KeepsOutside P (send_count k)
    unfolding send_count
    send_count-Keeps zero = Keeps-pure tt
    send_count-Keeps (suc k) = Keeps-bind _ _ queue_remove_blocking-Keeps (λ m.
        Keeps-bind _ _ (spi_send_blocking-Keeps m.payload m.payload_length m.e_flag)
          (λ _. Keeps-bind _ _ (free-Keeps m.payload) (λ _. send_count-Keeps k)))

    send_all-Keeps : (fuel : ℕ) → KeepsOutside P (send_all fuel)
    unfolding send_all
    send_all-Keeps zero = record { after = λ n h. h }
    send_all-Keeps (suc fuel) =
        Keeps-test (λ n. sdk.queue_is_empty n.tx) _ _ (Keeps-pure tt)
          (Keeps-bind _ _ queue_remove_blocking-Keeps (λ m.
            Keeps-bind _ _ (send_message-Keeps m.payload m.payload_length m.e_flag)
              (λ _. Keeps-bind _ _ (free-Keeps m.payload) (λ _. send_all-Keeps fuel))))

    receive_count-Keeps : (k : ℕ) → KeepsOutside P (receive_count k)
    unfolding receive_count
    receive_count-Keeps zero = Keeps-pure tt
    receive_count-Keeps (suc k) =
        Keeps-bind _ _ receive_into_bugger-Keeps
          (λ m. Keeps-bind _ _ (queue_add_with_copy-Keeps m) (λ _. receive_count-Keeps k))

    receive_until_query-Keeps : (fuel : ℕ) → KeepsOutside P (receive_until_query fuel)
    unfolding receive_until_query
    receive_until_query-Keeps zero = Keeps-halt Stop.spins
    receive_until_query-Keeps (suc fuel) = Keeps-bind _ _ receive_into_bugger-Keeps (λ m.
        Keeps-test (λ n. has n.spi.flag slave_data_query) _ _ (Keeps-pure tt)
          (Keeps-bind _ _ (queue_add_with_copy-Keeps m) (λ _. receive_until_query-Keeps fuel)))

    sync_master-Keeps : KeepsOutside P sync_master
    unfolding sync_master
    sync_master-Keeps =
        search
          (
            composed, emit-Keeps, send_all-Keeps, send_message-Keeps, recieve_message-Keeps,
            runtime_assert-Keeps, load_byte-Keeps, receive_count-Keeps,
          )
          depth 20

    sync_slave-Keeps : KeepsOutside P sync_slave
    unfolding sync_slave
    sync_slave-Keeps =
        search
          (
            composed, emit-Keeps, receive_until_query-Keeps, store-Keeps, load_byte-Keeps,
            send_message-Keeps, send_count-Keeps,
          )
          depth 20

    sync-Keeps : KeepsOutside P sync
    unfolding sync
    sync-Keeps =
        search (composed, emit-Keeps, Keeps-role, sync_master-Keeps, sync_slave-Keeps) depth 20

module _ ⦃sdk : Sdk⦄ where
  -- A call of `sync`, however it ends, changes nothing but the memory, the two queues and the link:
  -- the registers and endpoints of the USB controller, the drivers, the aggregator and the
  -- variables of both event handlers are as they were, and so are the role and the pins.
  pub sync-outside : (n : Node) → outside_part (sync n).1 ≡ outside_part n
  sync-outside n = (sync-Keeps {P = λ r. r ≡ outside_part n}).after n refl
