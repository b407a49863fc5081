-- ===== src/Messages/Untouched.antt =====
-- What sending leaves alone, and what receiving does.
use usbsec.Base.{ℕ, zero, suc, Bool, List, has, arith, ◌≡◌, ◌∙◌, refl, ap, sym}
use usbsec.Node.Sdk.{Sdk, Queue, Message, Pointer}
use usbsec.Node.State.{Node, Role, Event}
use usbsec.Node.Monad.{ok, emit, runtime_assert, Stop}
use usbsec.Messages.MsgType.{slave_data_query}
use usbsec.Node.Keeps.{Keeps, Keeps-same, Keeps-bind, Keeps-test, Keeps-pure, Keeps-halt, composed}
use usbsec.Node.Memory.{free, load, store, malloc, memcpy}
use usbsec.Spi.{spi_send_blocking, spi_receive_blocking}
use usbsec.Messages.{
  tx, rx, recieve_message, receive_into_bugger, receive_until_query, receive_count,
  queue_add_blocking, queue_add_with_copy, await_pin, queue_remove_blocking, send_message, send_all,
  send_count,
}

-- the part of a node that sending has nothing to do with
abbrev pub ReceivingPart : Type 0
ReceivingPart = Role × (ℕ → Bool) × Queue × ℕ × ℕ × List ℕ

abbrev pub receiving_part : Node → ReceivingPart
receiving_part n = (n.role, n.pin, n.rx, n.next_block, n.spi.dummy, n.spi.wire_in)

module _ {P : ReceivingPart → Type 0} where
  spi_send_blocking-Keeps :
      (p : Pointer) (len flag : ℕ) → Keeps receiving_part P (spi_send_blocking p len flag)
  unfolding spi_send_blocking load
  spi_send_blocking-Keeps p len flag = Keeps-same _ (λ n. ground arith)

  await_pin-Keeps : (pin : ℕ) → Keeps receiving_part P (await_pin pin)
  await_pin-Keeps pin = Keeps-same _ (λ n. ground arith)

  send_message-Keeps :
      (p : Pointer) (len flag : ℕ) → Keeps receiving_part P (send_message p len flag)
  unfolding send_message
  send_message-Keeps p len flag = search (composed, await_pin-Keeps, spi_send_blocking-Keeps)

  free-Keeps : (p : Pointer) → Keeps receiving_part P (free p)
  unfolding free
  free-Keeps p = Keeps-same _ (λ n. ground arith)

  module _ ⦃sdk : Sdk⦄ where
    queue_remove_blocking-Keeps : Keeps receiving_part P (queue_remove_blocking tx)
    unfolding queue_remove_blocking
    queue_remove_blocking-Keeps = Keeps-same _ (λ n. ground arith)

    ruleset sending = (
      composed, queue_remove_blocking-Keeps, send_message-Keeps, spi_send_blocking-Keeps,
      free-Keeps,
    )

    send_count-Keeps : (k : ℕ) → Keeps receiving_part P (send_count k)
    unfolding send_count
    send_count-Keeps zero = search (sending)
    send_count-Keeps (suc k) = Keeps-bind _ _ queue_remove_blocking-Keeps (λ m.
        Keeps-bind _ _ (spi_send_blocking-Keeps m.payload m.payload_length m.e_flag)
          (λ _. Keeps-bind _ _ (free-Keeps m.payload) (λ _. send_count-Keeps k)))

    send_all-Keeps : (fuel : ℕ) → Keeps receiving_part P (send_all fuel)
    unfolding send_all
    send_all-Keeps zero = record { after = λ n h. h }
    send_all-Keeps (suc fuel) =
        Keeps-test (λ n. sdk.queue_is_empty n.tx) _ _ (Keeps-pure tt)
          (Keeps-bind _ _ queue_remove_blocking-Keeps (λ m.
            Keeps-bind _ _ (send_message-Keeps m.payload m.payload_length m.e_flag)
              (λ _. Keeps-bind _ _ (free-Keeps m.payload) (λ _. send_all-Keeps fuel))))

module _ ⦃sdk : Sdk⦄ where
  pub send_all-same :
      (fuel : ℕ) (n n' : Node)
      → send_all fuel n ≡ (ok tt, n')
      → receiving_part n' ≡ receiving_part n
  send_all-same fuel n n' runs =
      ap (λ r. receiving_part r.1) (sym runs)
      ∙ (send_all-Keeps {P = λ r. r ≡ receiving_part n} fuel).after n refl

  pub send_count-same :
      (k : ℕ) (n n' : Node) → send_count k n ≡ (ok tt, n') → receiving_part n' ≡ receiving_part n
  send_count-same k n n' runs =
      ap (λ r. receiving_part r.1) (sym runs)
      ∙ (send_count-Keeps {P = λ r. r ≡ receiving_part n} k).after n refl

-- the part that receiving has nothing to do with
abbrev pub SendingPart : Type 0
SendingPart = Role × (ℕ → Bool) × Queue × List ℕ

abbrev pub sending_part : Node → SendingPart
sending_part n = (n.role, n.pin, n.tx, n.spi.wire_out)

module _ {P : SendingPart → Type 0} where
  spi_receive_blocking-Keeps : (p : Pointer) → Keeps sending_part P (spi_receive_blocking p)
  unfolding spi_receive_blocking store
  spi_receive_blocking-Keeps p = Keeps-same _ (λ n. ground arith)

  emit-Keeps : (e : Event) → Keeps sending_part P (emit e)
  emit-Keeps e = record { after = λ n h. h }

  pub recieve_message-Keeps : (p : Pointer) → Keeps sending_part P (recieve_message p)
  unfolding recieve_message
  recieve_message-Keeps p = search (composed, emit-Keeps, spi_receive_blocking-Keeps) depth 20

  module _ ⦃sdk : Sdk⦄ where
    receive_into_bugger-Keeps : Keeps sending_part P receive_into_bugger
    unfolding receive_into_bugger
    receive_into_bugger-Keeps = search (composed, recieve_message-Keeps) depth 20

    malloc-Keeps : (len : ℕ) → Keeps sending_part P (malloc len)
    unfolding malloc
    malloc-Keeps len = Keeps-same _ (λ n. ground arith)

    memcpy-Keeps : (to from : Pointer) (len : ℕ) → Keeps sending_part P (memcpy to from len)
    unfolding memcpy load store
    memcpy-Keeps to from len = Keeps-same _ (λ n. ground arith)

    runtime_assert-Keeps : (b : Bool) → Keeps sending_part P (runtime_assert b)
    unfolding runtime_assert
    runtime_assert-Keeps b = Keeps-same _ (λ n. ground arith)

    queue_add_blocking-Keeps : (m : Message) → Keeps sending_part P (queue_add_blocking rx m)
    unfolding queue_add_blocking
    queue_add_blocking-Keeps m = Keeps-same _ (λ n. ground arith)

    queue_add_with_copy-Keeps : (m : Message) → Keeps sending_part P (queue_add_with_copy rx m)
    unfolding queue_add_with_copy
    queue_add_with_copy-Keeps m =
        search
          (composed, malloc-Keeps, memcpy-Keeps, runtime_assert-Keeps, queue_add_blocking-Keeps)
          depth 20

    receive_until_query-Keeps : (fuel : ℕ) → Keeps sending_part P (receive_until_query fuel)
    unfolding receive_until_query
    receive_until_query-Keeps zero = Keeps-halt Stop.spins
    receive_until_query-Keeps (suc fuel) = Keeps-bind _ _ receive_into_bugger-Keeps (λ m.
        Keeps-test (λ n. has n.spi.flag slave_data_query) _ _ (Keeps-pure tt)
          (Keeps-bind _ _ (queue_add_with_copy-Keeps m) (λ _. receive_until_query-Keeps fuel)))

    receive_count-Keeps : (k : ℕ) → Keeps sending_part P (receive_count k)
    unfolding receive_count
    receive_count-Keeps zero = Keeps-pure tt
    receive_count-Keeps (suc k) =
        Keeps-bind _ _ receive_into_bugger-Keeps
          (λ m. Keeps-bind _ _ (queue_add_with_copy-Keeps m) (λ _. receive_count-Keeps k))

module _ ⦃sdk : Sdk⦄ where
  pub receive_until_query-same :
      (fuel : ℕ) (n n' : Node)
      → receive_until_query fuel n ≡ (ok tt, n')
      → sending_part n' ≡ sending_part n
  receive_until_query-same fuel n n' runs =
      ap (λ r. sending_part r.1) (sym runs)
      ∙ (receive_until_query-Keeps {P = λ r. r ≡ sending_part n} fuel).after n refl

  pub receive_count-same :
      (k : ℕ) (n n' : Node) → receive_count k n ≡ (ok tt, n') → sending_part n' ≡ sending_part n
  receive_count-same k n n' runs =
      ap (λ r. sending_part r.1) (sym runs)
      ∙ (receive_count-Keeps {P = λ r. r ≡ sending_part n} k).after n refl
