-- ===== src/HostEvents/Queues.antt =====
-- The queues of messages leave the variables of host_event_handlers.c alone.
use usbsec.Base.{ℕ, arith}
use usbsec.Node.Sdk.{Sdk, Message}
use usbsec.Node.State.{HostState}
use usbsec.Node.Keeps.{Keeps-same}
use usbsec.Node.Memory.{malloc}
use usbsec.Messages.{
  Direction, tx, rx, queue_add_blocking, queue_add_with_copy, enqueue_spi_message,
  dequeue_spi_message,
}
use usbsec.Endpoint.Frame.{leaves}
use usbsec.HostEvents.Frame.{KeepsHost, host-IsApart}

module _ ⦃sdk : Sdk⦄ {Q : HostState → Type 0} where
  malloc-Keeps : (len : ℕ) → KeepsHost Q (malloc len)
  unfolding malloc
  malloc-Keeps len = Keeps-same _ (λ n. ground arith)

  queue_add_blocking-Keeps : (d : Direction) (m : Message) → KeepsHost Q (queue_add_blocking d m)
  unfolding queue_add_blocking
  queue_add_blocking-Keeps tx m = Keeps-same _ (λ n. ground arith)
  queue_add_blocking-Keeps rx m = Keeps-same _ (λ n. ground arith)

  pub enqueue_spi_message-Keeps : (m : Message) → KeepsHost Q (enqueue_spi_message m)
  unfolding enqueue_spi_message queue_add_with_copy
  enqueue_spi_message-Keeps m =
      search (leaves, host-IsApart, malloc-Keeps, queue_add_blocking-Keeps) depth 20

  pub dequeue_spi_message-Keeps : KeepsHost Q dequeue_spi_message
  unfolding dequeue_spi_message
  dequeue_spi_message-Keeps = Keeps-same _ (λ n. ground arith)
