-- ===== src/Endpoint/Receiving.antt =====
-- A transfer from the computer to the master, packet by packet.
use usbsec.Base.{
  ℕ, ◌+◌, ◌-◌, ◌^◌, ◌≤◌, ◌<◌, ◌≢◌, ◌≡◌, refl, ap, ◌∙◌, sym, subst, Bool, true, false, List, [], ◌∷◌,
  ◌++◌, some, min, arith, length, length-append, if◌then◌else◌,
}
use usbsec.Node.Sdk.{Pointer, Store, forward}
use usbsec.Node.State.{Node}
use usbsec.Node.Monad.{M, ok, pure, ◌>>=◌, ◌>>◌}
use usbsec.Node.Keeps.{bind_ok}
use usbsec.Node.Memory.{fetch}
use usbsec.Node.Memory.Stretch.{append-nothing, append_assoc}
use usbsec.Endpoint.{hw_endpoint_xfer_start, hw_endpoint_xfer_continue}
use usbsec.Endpoint.Wired.{Wiring, IsWiring, IsWired, begin_lem}
use usbsec.Endpoint.Awaiting.{IsCollecting, IsAwaiting, await_lem}
use usbsec.Endpoint.Collect.{collected, collect_next, collect_last}
use usbsec.Endpoint.Arriving.{arrive_lem}
use usbsec.Endpoint.Bus.{IsDeliver, give_packet, give_packets, joined, AreDelivered}

-- The transfer ends with the packets, and `all` is in its buffer then.
abbrev IsReceived : (ℕ → ℕ → ℕ) → ℕ → Pointer → List (List ℕ) → List ℕ → Node → Type 0
IsReceived deliver e buffer packets all n =
    (n' : Node) × (give_packets deliver e packets n ≡ (ok [], n'))
    × (fetch n'.mem buffer (length all) ≡ some all)
    × ((n'.usb.endpoint e).xferred_len ≡ length all)

give_last :
    (deliver : ℕ → ℕ → ℕ) (e : ℕ) (packet : List ℕ) (packets : List (List ℕ)) (n n1 n' : Node)
    → give_packet deliver e packet n ≡ (ok tt, n1)
    → hw_endpoint_xfer_continue e n1 ≡ (ok true, n')
    → give_packets deliver e (packet ∷ packets) n ≡ (ok packets, n')
unfolding give_packets
give_last deliver e packet packets n n1 n' gives complete =
    let after : Bool → M (List (List ℕ)) =
      λ done. if done then pure packets else give_packets deliver e packets in
    bind_ok (give_packet deliver e packet) (λ _. hw_endpoint_xfer_continue e >>= after) n n1 tt
      gives
    ∙ bind_ok (hw_endpoint_xfer_continue e) after n1 n' true complete

give_more :
    (deliver : ℕ → ℕ → ℕ) (e : ℕ) (packet : List ℕ) (packets : List (List ℕ)) (n n1 n2 : Node)
    → give_packet deliver e packet n ≡ (ok tt, n1)
    → hw_endpoint_xfer_continue e n1 ≡ (ok false, n2)
    → give_packets deliver e (packet ∷ packets) n ≡ give_packets deliver e packets n2
unfolding give_packets
give_more deliver e packet packets n n1 n2 gives more =
    let after : Bool → M (List (List ℕ)) =
      λ done. if done then pure packets else give_packets deliver e packets in
    bind_ok (give_packet deliver e packet) (λ _. hw_endpoint_xfer_continue e >>= after) n n1 tt
      gives
    ∙ bind_ok (hw_endpoint_xfer_continue e) after n1 n2 false more

receive_last :
    (deliver : ℕ → ℕ → ℕ) (w : Wiring) (e : ℕ) (n : Node) (buffer : Pointer) (got packet : List ℕ)
    (len : ℕ)
    → IsDeliver deliver
    → IsWiring w
    → IsWired true w e n
    → IsAwaiting w n
    → IsCollecting w e buffer got len n
    → AreDelivered w.mps len (packet ∷ [])
    → (n.usb.endpoint e).remaining_len ≡ len - min len w.mps
    → length got + len < 2 ^ 16
    → IsReceived deliver e buffer (packet ∷ []) (got ++ packet) n
receive_last deliver w e n buffer got packet len is_deliver wiring wired awaits collecting
      (le, fits, last) left short =
    let (positive, small, apart, c_main, b_main) = wiring in
    let (role, device, rx, size, hw, ctrl, buf, old) = wired in
    let (partial, user, read, away, real, all, sent) = collecting in
    let sum = length-append got packet in
    let (n1, mem, gives, arrived, _, collecting1, same) =
      arrive_lem deliver w e n buffer got packet len is_deliver wiring wired awaits collecting le
        fits (omega arith) in
    let (_, _, whole, _, _, _, _) = collecting1 in
    let mps1 : (n1.usb.endpoint e).w_max_packet_size ≡ w.mps =
      ap (λ r. r.w_max_packet_size) same ∙ size in
    let left1 : (n1.usb.endpoint e).remaining_len ≡ len - min len w.mps =
      ap (λ r. r.remaining_len) same ∙ left in
    let (n', complete, total, is_mem) =
      collect_last e (length got) packet mem n1 arrived (omega (arith, mps1)) (omega (arith, mps1))
        (λ full. omega (arith, mps1, left1, last (omega (arith, mps1))))
        (ap (λ r. r.xferred_len) same ∙ sent) (omega arith) in
    (
      n',
      give_last deliver e packet [] n n1 n' gives complete,
      ap (λ m. fetch m buffer (length (got ++ packet))) is_mem ∙ whole,
      total ∙ sym sum,
    )

collected-remaining :
    (e p : ℕ) (mem : Store) (n : Node)
    → ((collected e p mem n).usb.endpoint e).remaining_len ≡ (n.usb.endpoint e).remaining_len
collected-remaining e p mem n = ground arith

receive_all :
    (deliver : ℕ → ℕ → ℕ) (w : Wiring) (e : ℕ) (n : Node) (buffer : Pointer) (got : List ℕ)
    (packets : List (List ℕ)) (len : ℕ)
    → IsDeliver deliver
    → IsWiring w
    → IsWired true w e n
    → IsAwaiting w n
    → IsCollecting w e buffer got len n
    → AreDelivered w.mps len packets
    → (n.usb.endpoint e).remaining_len ≡ len - min len w.mps
    → length got + len < 2 ^ 16
    → IsReceived deliver e buffer packets (got ++ joined packets) n
receive_all deliver w e n buffer got [] len is_deliver wiring wired awaits collecting cut left
      short =
    absurd cut
receive_all deliver w e n buffer got (p ∷ []) len is_deliver wiring wired awaits collecting cut left
      short =
    subst (λ all. IsReceived deliver e buffer (p ∷ []) (got ++ all) n) (sym (append-nothing p))
      (receive_last deliver w e n buffer got p len is_deliver wiring wired awaits collecting cut
        left short)
receive_all deliver w e n buffer got (p ∷ q ∷ ps) len is_deliver wiring wired awaits collecting
      (full, more, cut) left short =
    let (positive, small, apart, c_main, b_main) = wiring in
    let (role, device, rx, size, hw, ctrl, buf, old) = wired in
    let sum = length-append got p in
    let (n1, mem, gives, arrived, wired1, collecting1, same) =
      arrive_lem deliver w e n buffer got p len is_deliver wiring wired awaits collecting
        (omega (arith, full)) (omega (arith, full)) (omega (arith, full)) in
    let mps1 : (n1.usb.endpoint e).w_max_packet_size ≡ w.mps =
      ap (λ r. r.w_max_packet_size) same ∙ size in
    let left1 : (n1.usb.endpoint e).remaining_len ≡ len - min len w.mps =
      ap (λ r. r.remaining_len) same ∙ left in
    let (n2, next, wired2, awaits2, collecting2, left2) =
      await_lem w e (collected e (length p) mem n1) buffer (got ++ p) (len - length p) wiring wired1
        collecting1 in
    let going =
      collect_next e p mem n1 arrived (omega (arith, full)) (omega (arith, full, mps1))
        (omega (arith, left1)) n2 next in
    let room : len - length p ≡ len - w.mps = omega (arith, full) in
    let kept : ((collected e (length p) mem n1).usb.endpoint e).remaining_len
        ≡ (n1.usb.endpoint e).remaining_len =
      collected-remaining e (length p) mem n1 in
    let rest_left : (n2.usb.endpoint e).remaining_len ≡ len - w.mps - min (len - w.mps) w.mps =
      omega (arith, left1, left2, kept) in
    let (n', gives', whole, total) =
      receive_all deliver w e n2 buffer (got ++ p) (q ∷ ps) (len - w.mps) is_deliver wiring wired2
        awaits2 (subst (λ r. IsCollecting w e buffer (got ++ p) r n2) room collecting2) cut
        rest_left (omega (arith, sum, full)) in
    subst (λ all. IsReceived deliver e buffer (p ∷ q ∷ ps) all n)
      (append_assoc got p (joined (q ∷ ps)))
      (n', give_more deliver e p (q ∷ ps) n n1 n2 gives going ∙ gives', whole, total)

forward_none : (p : Pointer) → forward p 0 ≡ p
forward_none p =
    let same : p.off + 0 ≡ p.off = omega arith in ap (λ (o : ℕ). record p { off = o }) same

-- For an endpoint of the master that receives, whatever transfer it had before, and a buffer with room
-- for `len` bytes, fewer than 2 ^ 16, which is not the controller's: when the computer sends full
-- packets, while fewer than `len` bytes have come, and then a short one or the rest of `len`, and
-- `hw_endpoint_xfer_continue` runs after each, then the transfer that `hw_endpoint_xfer_start` begins
-- is complete with the last packet and not before it, the buffer holds the bytes of all packets in
-- their order, and the endpoint has counted them.
pub transfer_receives_all :
    (deliver : ℕ → ℕ → ℕ) (w : Wiring) (e : ℕ) (n : Node) (buffer : Pointer) (all : List ℕ)
    (len : ℕ) (packets : List (List ℕ))
    → IsDeliver deliver
    → IsWiring w
    → IsWired true w e n
    → n.mem buffer.block ≡ some all
    → buffer.off + len ≤ length all
    → buffer.block ≢ w.hw.block
    → buffer.block ≢ 0
    → len < 2 ^ 16
    → AreDelivered w.mps len packets
    → (n' : Node) × ((hw_endpoint_xfer_start e buffer len >> give_packets deliver e packets) n
        ≡ (ok [], n'))
      × (fetch n'.mem buffer (length (joined packets)) ≡ some (joined packets))
      × ((n'.usb.endpoint e).xferred_len ≡ length (joined packets))
unfolding fetch
transfer_receives_all deliver w e n buffer all len packets is_deliver wiring wired at fits away real
      short cut =
    let (n1, start, wired1, begun, same) = begin_lem true w e n buffer len wired in
    let collecting : IsCollecting w e buffer [] len n1 = (
      ap (λ r. r.partial) begun,
      ap (λ r. r.user_buf) begun ∙ sym (forward_none buffer),
      refl,
      away,
      real,
      (all, ap (λ m. m buffer.block) same ∙ at, omega arith),
      ap (λ r. r.xferred_len) begun,
    ) in
    let (n2, next, wired2, awaits, collecting2, left) =
      await_lem w e n1 buffer [] len wiring wired1 collecting in
    let (n', gives, whole, total) =
      receive_all deliver w e n2 buffer [] packets len is_deliver wiring wired2 awaits collecting2
        cut (left ∙ ap (λ r. r - min r w.mps) (ap (λ r. r.remaining_len) begun)) (omega arith) in
    (
      n',
      bind_ok (hw_endpoint_xfer_start e buffer len) (λ _. give_packets deliver e packets) n n2 tt
            (start ∙ next)
          ∙ gives,
      whole,
      total,
    )
