-- ===== src/Messages/SendAll.antt =====
-- The master's half of `sync` that puts its messages on the wire: `send_all`.
use usbsec.Base.{
  ℕ, zero, suc, ◌<◌, ◌≡◌, refl, List, [], ◌∷◌, ◌++◌, some, none, true, false, length, arith, ap,
  append-nil, sym, ◌∙◌, append_assoc, ◌==◌,
}
use usbsec.Node.Sdk.{Sdk, IsFifo, Queue, Message}
use usbsec.Node.State.{Node, master}
use usbsec.Node.Monad.{ok}
use usbsec.Node.Memory.{free}
use usbsec.Node.Memory.Copy.{set_block_self, set_block_ne}
use usbsec.Spi.Frame.{frame}
use usbsec.Spi.Transfer.{send_lem}
use usbsec.Messages.{gpio_slave_waiting_pin, queue_remove_blocking, send_message, send_all}
use usbsec.Messages.Contents.{Content, StandsFor, StandFor, NotAmong, AreApart}
use usbsec.Messages.Send.{frames, AreFreed, passed_on, fetch_message, StandFor-freed}

module _ ⦃sdk : Sdk⦄ where
  nothing_left :
      (fuel : ℕ) (n : Node) → sdk.queue_is_empty n.tx ≡ true → send_all (suc fuel) n ≡ (ok tt, n)
  unfolding send_all
  nothing_left fuel n empty = ground (arith, empty)

  pass_one :
      (fuel : ℕ) (n : Node) (m : Message) (q : Queue) (c : Content) (next : ℕ)
      → n.role ≡ master
      → n.pin gpio_slave_waiting_pin ≡ true
      → sdk.queue_is_empty n.tx ≡ false
      → sdk.queue_try_remove n.tx ≡ some (m, q)
      → n.spi.dummy ≡ 0xff
      → StandsFor n.mem next m c
      → send_all (suc fuel) n ≡ send_all fuel (passed_on n m q c)
  unfolding send_all send_message queue_remove_blocking free
  pass_one fuel n m q c next role waiting some_left front d (f, l, z, r, heap, below) = ground (
    arith,
    send_lem m.payload c.flag (record n { tx = q }) c.bytes d (fetch_message n.mem m c.bytes z r),
  )

module _ ⦃sdk : Sdk⦄ (fifo : IsFifo sdk) where
  is_empty_lem :
      (q : Queue) (ms : List Message) → sdk.items q ≡ ms → sdk.queue_is_empty q ≡ (length ms == 0)
  is_empty_lem q ms its = fifo.queue_is_empty_lem q ∙ ap (λ l. length l == 0) its

  some_left :
      (q : Queue) (m : Message) (ms : List Message)
      → sdk.items q ≡ m ∷ ms
      → sdk.queue_is_empty q ≡ false
  some_left q m ms its = is_empty_lem q (m ∷ ms) its ∙ ground arith

  -- The master's `send_all` returns whenever its fuel is more than the messages in its queue and
  -- the slave waits for them: it puts all of them on the wire as frames, in the order of the queue,
  -- frees their payloads and leaves the queue empty. The messages stand for the contents in blocks
  -- of their own, and the wire is ready to transmit.
  pub send_all_lem :
      (fuel : ℕ) (ms : List Message) (cs : List Content) (n : Node)
      → length ms < fuel
      → sdk.items n.tx ≡ ms
      → n.role ≡ master
      → n.pin gpio_slave_waiting_pin ≡ true
      → n.spi.dummy ≡ 0xff
      → StandFor n.mem n.next_block ms cs
      → AreApart ms
      → (n' : Node) × (send_all fuel n ≡ (ok tt, n'))
        × (n'.spi.wire_out ≡ n.spi.wire_out ++ frames cs)
        × (sdk.items n'.tx ≡ [])
        × AreFreed n'.mem ms
        × ((k : ℕ) → NotAmong k ms → n'.mem k ≡ n.mem k)
  send_all_lem zero ms cs n enough its role waiting d stand apart = absurd (omega arith)
  send_all_lem (suc fuel) [] [] n enough its role waiting d stand apart = (
    n,
    nothing_left fuel n (is_empty_lem n.tx [] its),
    sym (append-nil n.spi.wire_out),
    its,
    tt,
    λ k h. refl,
  )
  send_all_lem (suc fuel) [] (c ∷ cs) n enough its role waiting d stand apart = elim stand [ ]
  send_all_lem (suc fuel) (m ∷ ms) [] n enough its role waiting d stand apart = elim stand [ ]
  send_all_lem (suc fuel) (m ∷ ms) (c ∷ cs) n enough its role waiting d (one, stand)
        (first, apart) =
      let (q, front, rest) = fifo.queue_try_remove-first n.tx m ms its in
      let (n', run, out, empty, freed, kept) =
        send_all_lem fuel ms cs (passed_on n m q c) (omega arith) rest role waiting d
          (StandFor-freed n.mem n.next_block m.payload.block ms cs first stand) apart in
      (
        n',
        pass_one fuel n m q c n.next_block role waiting (some_left n.tx m ms its) front d one ∙ run,
        out ∙ append_assoc n.spi.wire_out (frame c.bytes c.flag) (frames cs),
        empty,
        (kept m.payload.block first ∙ set_block_self n.mem m.payload.block none, freed),
        λ k (ne, h). kept k h ∙ set_block_ne n.mem m.payload.block k none (λ e. ne (sym e)),
      )
