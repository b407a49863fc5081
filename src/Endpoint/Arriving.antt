-- ===== src/Endpoint/Arriving.antt =====
-- A packet of the computer comes to an endpoint of the master: it goes into the buffer of the
-- controller, and then to its place in the buffer of the transfer.
use usbsec.Base.{
  ℕ, ◌+◌, ◌-◌, ◌^◌, ◌≤◌, ◌<◌, ◌≢◌, ◌≡◌, refl, ap, ◌∙◌, sym, subst, true, List, ◌++◌, some, arith,
  length, length-append, if◌then◌else◌, ◌==◌,
}
use usbsec.Node.Sdk.{Pointer, Store, forward}
use usbsec.Node.State.{Node}
use usbsec.Node.Monad.{ok}
use usbsec.Node.Memory.{fetch, poke, store}
use usbsec.Endpoint.Copies.{AreCopied, copy_lem}
use usbsec.Endpoint.Wired.{Wiring, IsWiring, IsWired}
use usbsec.Endpoint.Awaiting.{IsCollecting, IsAwaiting}
use usbsec.Endpoint.Collect.{IsArrived, collected}
use usbsec.Endpoint.Bus.{IsDeliver, give_packet}

-- the node when a packet is in the buffer, whose memory is `mem` then
abbrev delivered : (ℕ → ℕ → ℕ) → ℕ → ℕ → Store → Node → Node
delivered deliver e p mem n =
    let b = (n.usb.endpoint e).buffer_control in
    let n1 : Node = record n { mem = mem } in
    record n1 { regs = λ k. if k == b then deliver (n.regs b) p else n.regs k }

give_lem :
    (deliver : ℕ → ℕ → ℕ) (w : Wiring) (e : ℕ) (n : Node) (packet : List ℕ) (mem : Store)
    → IsWired true w e n
    → IsAwaiting w n
    → poke n.mem w.hw packet ≡ some mem
    → give_packet deliver e packet n ≡ (ok tt, delivered deliver e (length packet) mem n)
unfolding give_packet store
give_lem deliver w e n packet mem (role, device, rx, size, hw, ctrl, buf, room)
      (avail, full, single) written =
    ground arith

delivered-IsArrived :
    (deliver : ℕ → ℕ → ℕ) (w : Wiring) (e : ℕ) (n : Node) (buffer : Pointer) (got packet : List ℕ)
    (room hw_size size : ℕ) (mem1 mem2 : Store)
    → IsDeliver deliver
    → IsWiring w
    → IsWired true w e n
    → IsAwaiting w n
    → IsCollecting w e buffer got room n
    → length packet ≤ 64
    → AreCopied w.hw buffer got packet n.mem hw_size size mem1 mem2
    → IsArrived e packet mem2 (delivered deliver e (length packet) mem1 n)
delivered-IsArrived deliver w e n buffer got packet room hw_size size mem1 mem2 is_deliver wiring
      wired awaits collecting small copied =
    let (positive, small', apart, c_main, b_main) = wiring in
    let (role, device, rx, mps, hw, ctrl, buf, old) = wired in
    let (avail, full, single) = awaits in
    let (partial, user, read, away, real, behind, sent) = collecting in
    let (in_buffer, there, written, whole, room1, room2) = copied in
    let is_full =
      is_deliver.full (n.regs (n.usb.endpoint e).buffer_control) (length packet) small in
    let is_long =
      is_deliver.its_length (n.regs (n.usb.endpoint e).buffer_control) (length packet) small in
    (
      role,
      rx,
      partial,
      ground (arith, is_full),
      ground (arith, is_long),
      ground (arith, single),
      subst (λ (q : Pointer). q.block ≢ 0) (sym user) real,
      ap (λ q. fetch mem1 q (length packet)) hw ∙ there,
      ap (λ q. poke mem1 q packet) user ∙ written,
    )

collected-IsWired :
    (deliver : ℕ → ℕ → ℕ) (w : Wiring) (e : ℕ) (n : Node) (buffer : Pointer)
    (got packet old : List ℕ) (size : ℕ) (mem1 mem2 : Store)
    → IsWiring w
    → IsWired true w e n
    → w.hw.off + 64 ≤ length old
    → AreCopied w.hw buffer got packet n.mem (length old) size mem1 mem2
    → IsWired true w e
        (collected e (length packet) mem2 (delivered deliver e (length packet) mem1 n))
collected-IsWired deliver w e n buffer got packet old size mem1 mem2 wiring wired wide copied =
    let (positive, small', apart, c_main, b_main) = wiring in
    let (role, device, rx, mps, hw, ctrl, buf, room) = wired in
    let (in_buffer, there, written, whole, (old2, at, same), room2) = copied in
    (
      role,
      ground arith,
      ground arith,
      ground arith,
      ground arith,
      ground arith,
      ground arith,
      (old2, at, omega (arith, same)),
    )

forward_twice : (p : Pointer) (a b c : ℕ) → c ≡ a + b → forward (forward p a) b ≡ forward p c
forward_twice p a b c h =
    let same : p.off + a + b ≡ p.off + c = omega arith in ap (λ (o : ℕ). record p { off = o }) same

collected-IsCollecting :
    (deliver : ℕ → ℕ → ℕ) (w : Wiring) (e : ℕ) (n : Node) (buffer : Pointer)
    (got packet all : List ℕ) (room hw_size : ℕ) (mem1 mem2 : Store)
    → IsCollecting w e buffer got room n
    → length packet ≤ room
    → buffer.off + length got + room ≤ length all
    → length got + length packet < 2 ^ 16
    → AreCopied w.hw buffer got packet n.mem hw_size (length all) mem1 mem2
    → IsCollecting w e buffer
        (got ++ packet)
        (room - length packet)
        (collected e (length packet) mem2 (delivered deliver e (length packet) mem1 n))
collected-IsCollecting deliver w e n buffer got packet all room hw_size mem1 mem2 collecting le
      behind short copied =
    let (partial, user, read, away, real, old_all, sent) = collecting in
    let (in_buffer, there, written, whole, room1, (all2, at, same)) = copied in
    let sum : length (got ++ packet) ≡ length got + length packet = length-append got packet in
    let p : ℕ = length packet in
    let n1 : Node = delivered deliver e p mem1 n in
    let gone : ((collected e p mem2 n1).usb.endpoint e).user_buf
        ≡ forward (n.usb.endpoint e).user_buf p =
      ground arith in
    (
      ground arith,
      gone
          ∙ (ap (λ q. forward q p) user
              ∙ forward_twice buffer (length got) p (length (got ++ packet)) sum),
      whole,
      away,
      real,
      (all2, at, omega (arith, same, sum)),
      ground (arith, sum),
    )

-- A packet that there is room for goes into the buffer, can be copied, and is behind what came before
-- once it is.
pub arrive_lem :
    (deliver : ℕ → ℕ → ℕ) (w : Wiring) (e : ℕ) (n : Node) (buffer : Pointer) (got packet : List ℕ)
    (room : ℕ)
    → IsDeliver deliver
    → IsWiring w
    → IsWired true w e n
    → IsAwaiting w n
    → IsCollecting w e buffer got room n
    → length packet ≤ w.mps
    → length packet ≤ room
    → length got + length packet < 2 ^ 16
    → (n1 : Node) × (mem : Store) × (give_packet deliver e packet n ≡ (ok tt, n1))
      × IsArrived e packet mem n1
      × IsWired true w e (collected e (length packet) mem n1)
      × IsCollecting w e buffer
          (got ++ packet)
          (room - length packet)
          (collected e (length packet) mem n1)
      × (n1.usb.endpoint e ≡ n.usb.endpoint e)
arrive_lem deliver w e n buffer got packet room is_deliver wiring wired awaits collecting le fits
      short =
    let (positive, small, apart, c_main, b_main) = wiring in
    let (role, device, rx, size, hw, ctrl, buf, (old, at, wide)) = wired in
    let (partial, user, read, away, real, (all, at_all, behind), sent) = collecting in
    let (mem1, mem2, copied) =
      copy_lem n.mem w.hw buffer old all got packet at (omega arith) at_all (omega arith) read
        away in
    let (in_buffer, there, written, whole, room1, room2) = copied in
    (
      delivered deliver e (length packet) mem1 n,
      mem2,
      give_lem deliver w e n packet mem1 wired awaits in_buffer,
      delivered-IsArrived deliver w e n buffer got packet room (length old) (length all) mem1 mem2
          is_deliver wiring wired awaits collecting (omega arith) copied,
      collected-IsWired deliver w e n buffer got packet old (length all) mem1 mem2 wiring wired wide
          copied,
      collected-IsCollecting deliver w e n buffer got packet all room (length old) mem1 mem2
          collecting fits behind short copied,
      refl,
    )
