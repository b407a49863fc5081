-- ===== src/HostEvents/SetupSent.antt =====
-- A setup packet from the master on its way to the device.
use usbsec.Base.{
  ℕ, ◌+◌, ◌/◌, ◌%◌, ◌^◌, ◌≡◌, ◌<◌, ap, ◌∙◌, some, none, true, List, ◌∷◌, length, arith,
  if◌then◌else◌, ◌==◌, subst,
}
use usbsec.Node.Sdk.{Sdk, IsFifo, Pointer, Queue, Message, Store}
use usbsec.Node.State.{Node}
use usbsec.Node.Monad.{ok, runtime_assert}
use usbsec.Node.Memory.{free, set_block, dpram, host_setup_packet, fetch, poke, load, store, memcpy}
use usbsec.Node.Memory.Copy.{poke_front, fetch_other, set_block_self}
use usbsec.Messages.Send.{fetch_message}
use usbsec.DirectionCtrl.{set_dir}
use usbsec.Regs.{sie_ctrl, sie_status, addr_endp}
use usbsec.Hcd.{
  hcd_setup_send, hw_endpoint_allocate, hw_endpoint_init, need_pre, dev_speed, sie_ctrl_base,
}
use usbsec.Messages.{dequeue_spi_message}
use usbsec.Messages.Contents.{Content, StandsFor}
use usbsec.HostEvents.{slavework, handle_message, on_setup_data, define_setup_packet}

memcpy_lem :
    (to from : Pointer) (len : ℕ) (n : Node) (bytes : List ℕ) (mem : Store)
    → fetch n.mem from len ≡ some bytes
    → poke n.mem to bytes ≡ some mem
    → memcpy to from len n ≡ (ok tt, record n { mem = mem })
unfolding memcpy load store
memcpy_lem to from len n bytes mem h p = ground arith

-- What the controller is told: SEND_SETUP and START_TRANS, with PREAMBLE_EN for a low speed device
-- behind a hub.
abbrev pub setup_command : Node → ℕ
setup_command n = sie_ctrl_base + 3 + (if n.regs sie_status / 2 ^ 8 % 4 == 1 then 64 else 0)

-- The first eight bytes of the USB memory are the packet, and the controller sends it to `d`.
abbrev pub IsSent : ℕ → List ℕ → Node → Node → Type 0
IsSent d bytes n n' =
    (fetch n'.mem dpram 8 ≡ some bytes)
    × (n'.regs addr_endp ≡ d)
    × (n'.regs sie_ctrl ≡ setup_command n)

setup_send_lem :
    (d : ℕ) (n : Node) (bytes : List ℕ) (mem : Store)
    → fetch n.mem host_setup_packet 8 ≡ some bytes
    → poke n.mem dpram bytes ≡ some mem
    → ((hcd_setup_send d host_setup_packet n).0 ≡ ok tt)
      × ((hcd_setup_send d host_setup_packet n).1.mem ≡ mem)
      × ((hcd_setup_send d host_setup_packet n).1.host ≡ n.host)
      × ((hcd_setup_send d host_setup_packet n).1.rx ≡ n.rx)
      × ((hcd_setup_send d host_setup_packet n).1.regs addr_endp ≡ d)
      × ((hcd_setup_send d host_setup_packet n).1.regs sie_ctrl ≡ setup_command n)
unfolding hcd_setup_send set_dir memcpy load store hw_endpoint_allocate hw_endpoint_init
    runtime_assert need_pre dev_speed
setup_send_lem d n bytes mem h p =
    (ground arith, ground arith, ground arith, ground arith, ground arith, ground arith)

-- the node when the packet has been copied
abbrev prepared : Node → Store → Node
prepared n mem = record n { mem = mem; host = record (n.host) { level = 0; debug_lock = true } }

setup_step :
    (message : Message) (n : Node) (bytes : List ℕ) (mem : Store)
    → fetch n.mem message.payload 8 ≡ some bytes
    → poke n.mem host_setup_packet bytes ≡ some mem
    → on_setup_data message n ≡ hcd_setup_send n.host.dev_addr host_setup_packet (prepared n mem)
unfolding on_setup_data define_setup_packet memcpy load store
setup_step message n bytes mem h p = ground arith

-- the blocks of `setup_packet` and of the USB memory
abbrev pub HasUsb : Node → Type 0
HasUsb n =
    ((old : List ℕ) × (n.mem 7 ≡ some old) × (length old ≡ 8))
    × ((old : List ℕ) × (n.mem 8 ≡ some old) × (length old ≡ 4096))

on_setup_data_sends :
    (message : Message) (n : Node) (bytes : List ℕ)
    → fetch n.mem message.payload 8 ≡ some bytes
    → length bytes ≡ 8
    → HasUsb n
    → (n' : Node) × (on_setup_data message n ≡ (ok tt, n'))
      × IsSent n.host.dev_addr bytes n n'
      × (n'.host ≡ record (n.host) { level = 0; debug_lock = true })
      × (n'.rx ≡ n.rx)
      × ((k : ℕ) → 8 < k → n'.mem k ≡ n.mem k)
on_setup_data_sends message n bytes h eight ((old7, at7, size7), (old8, at8, size8)) =
    let (mem1, poked1, read1, other1, _) = poke_front n.mem 7 old7 bytes at7 (omega arith) in
    let (mem2, poked2, read2, other2, _) =
      poke_front mem1 8 old8 bytes (other1 8 (omega arith) ∙ at8) (omega arith) in
    let n1 = prepared n mem1 in
    let (done, mem_is, host_is, rx_is, addr_is, ctrl_is) =
      setup_send_lem n.host.dev_addr n1 bytes mem2
        (subst (λ k. fetch mem1 host_setup_packet k ≡ some bytes) eight read1) poked2 in
    let n' = (hcd_setup_send n.host.dev_addr host_setup_packet n1).1 in
    (
      n',
      setup_step message n bytes mem1 h poked1 ∙ ap (λ o. (o, n')) done,
      (
        ap (λ mem. fetch mem dpram 8) mem_is
            ∙ subst (λ k. fetch mem2 dpram k ≡ some bytes) eight read2,
        addr_is,
        ctrl_is,
      ),
      host_is,
      rx_is,
      λ k high. ap (λ mem. mem k) mem_is ∙ (other2 k (omega arith) ∙ other1 k (omega arith)),
    )

-- the message of a setup packet
abbrev pub setup_content : List ℕ → Content
setup_content bytes = record { flag = 0x8002; bytes = bytes }

module _ ⦃sdk : Sdk⦄ where
  work_step :
      (m : Message) (q : Queue) (n n2 : Node) (bytes : List ℕ)
      → sdk.queue_try_remove n.rx ≡ some (m, q)
      → m.e_flag ≡ 0x8002
      → on_setup_data m (record n { rx = q }) ≡ (ok tt, n2)
      → n2.mem m.payload.block ≡ some bytes
      → 8 < m.payload.block
      → slavework n ≡ (ok tt, record n2 { mem = set_block n2.mem m.payload.block none })
  unfolding slavework dequeue_spi_message handle_message free
  work_step m q n n2 bytes front flag runs held heap = ground (arith, front, runs)

module _ ⦃sdk : Sdk⦄ (fifo : IsFifo sdk) where
  -- When a setup packet is the first message that the slave has received, `slavework` returns: the
  -- eight bytes of the packet are at the start of the USB memory, unchanged, and the controller is
  -- told to send them to the address of the device; the control transfer is at its first stage and
  -- holds the lock; the message is gone from the queue and its payload freed.
  pub slavework_sends :
      (n : Node) (m : Message) (ms : List Message) (bytes : List ℕ)
      → sdk.items n.rx ≡ m ∷ ms
      → StandsFor n.mem n.next_block m (setup_content bytes)
      → length bytes ≡ 8
      → HasUsb n
      → (n' : Node) × (slavework n ≡ (ok tt, n'))
        × IsSent n.host.dev_addr bytes n n'
        × (n'.host ≡ record (n.host) { level = 0; debug_lock = true })
        × (n'.mem m.payload.block ≡ none)
        × (sdk.items n'.rx ≡ ms)
  slavework_sends n m ms bytes its (flag, len, off, held, heap, below) eight usb =
      let (q, front, rest) = fifo.queue_try_remove-first n.rx m ms its in
      let (n2, runs, (packet, addr, ctrl), host_is, rx_is, kept) =
        on_setup_data_sends m (record n { rx = q }) bytes
          (subst (λ k. fetch n.mem m.payload k ≡ some bytes) eight
            (fetch_message n.mem m bytes off held))
          eight usb in
      let b = m.payload.block in
      (
        record n2 { mem = set_block n2.mem b none },
        work_step m q n n2 bytes front flag runs (kept b (omega arith) ∙ held) (omega arith),
        (fetch_other n2.mem dpram 8 b none (omega arith) ∙ packet, addr, ctrl),
        host_is,
        set_block_self n2.mem b none,
        ap sdk.items rx_is ∙ rest,
      )
