-- ===== src/Endpoint/Sending.antt =====
-- A transfer from the master to the computer, packet by packet.
use usbsec.Base.{
  ℕ, zero, suc, ◌+◌, ◌-◌, ◌^◌, ◌≤◌, ◌<◌, ◌≢◌, ◌≡◌, refl, ap, ◌∙◌, List, [], ◌∷◌, ◌++◌, some, false,
  min, arith, length, take, drop, length-take, length-drop, take-append-drop, if◌then◌else◌, ◌==◌,
}
use usbsec.Node.Sdk.{Pointer}
use usbsec.Node.State.{Node}
use usbsec.Node.Monad.{ok, ◌>>◌}
use usbsec.Node.Memory.{fetch, load}
use usbsec.Endpoint.{hw_endpoint_xfer_start}
use usbsec.Endpoint.Wired.{Wiring, IsWiring, IsWired, begin_lem}
use usbsec.Endpoint.Loading.{IsLeft, IsLoaded, load_lem}
use usbsec.Endpoint.Continue.{IsThrough, counted, continue_lem, complete_lem}
use usbsec.Endpoint.Bus.{IsAck, take_packet, take_packets, joined, AreCut}

-- the node when the computer has read the buffer
abbrev acked : (ℕ → ℕ) → ℕ → Node → Node
acked ack e n =
    let b = (n.usb.endpoint e).buffer_control in
    record n { regs = λ k. if k == b then ack (n.regs b) else n.regs k }

take_lem :
    (ack : ℕ → ℕ) (w : Wiring) (e : ℕ) (n : Node) (packet : List ℕ)
    → IsWired false w e n
    → IsLoaded w packet n
    → take_packet ack e n ≡ (ok packet, acked ack e n)
unfolding take_packet load
take_lem ack w e n packet (role, device, tx, size, hw, ctrl, buf, room)
      (bytes, len, avail, full, single) =
    ground arith

acked-IsWired :
    (ack : ℕ → ℕ) (w : Wiring) (e : ℕ) (n : Node)
    → IsWiring w
    → IsWired false w e n
    → IsWired false w e (acked ack e n)
acked-IsWired ack w e n (positive, small, apart, c_main, b_main)
      (role, device, tx, size, hw, ctrl, buf, room) =
    (role, ground arith, tx, size, hw, ctrl, buf, room)

acked-IsThrough :
    (ack : ℕ → ℕ) (w : Wiring) (e x : ℕ) (n : Node) (packet bytes : List ℕ)
    → IsAck ack
    → IsWiring w
    → IsWired false w e n
    → IsLoaded w packet n
    → IsLeft w e bytes x n
    → IsThrough e (length packet) (acked ack e n)
acked-IsThrough ack w e x n packet bytes is_ack (positive, small, apart, c_main, b_main)
      (role, device, tx, size, hw, ctrl, buf, room) (in_buffer, len, avail, full, single)
      (partial, left, read, away, sent) =
    let v = n.regs (n.usb.endpoint e).buffer_control in
    let empty = is_ack.not_full v in
    let same = is_ack.same_length v in (tx, partial, ground arith, ground arith, ground arith)

counted-IsWired :
    (w : Wiring) (e p : ℕ) (n : Node) → IsWired false w e n → IsWired false w e (counted e p n)
counted-IsWired w e p n (role, device, tx, size, hw, ctrl, buf, room) =
    (role, device, ground arith, ground arith, ground arith, ground arith, ground arith, room)

counted-IsLeft :
    (w : Wiring) (e p x : ℕ) (n : Node) (bytes : List ℕ)
    → IsLeft w e bytes x n
    → x + p < 2 ^ 16
    → IsLeft w e bytes (x + p) (counted e p n)
counted-IsLeft w e p x n bytes (partial, left, read, away, sent) fits =
    (ground arith, ground arith, ground arith, ground arith, ground arith)

-- the last packet is in the buffer
send_last :
    (ack : ℕ → ℕ) (w : Wiring) (e x fuel : ℕ) (n : Node) (packet : List ℕ)
    → IsAck ack
    → IsWiring w
    → IsWired false w e n
    → IsLoaded w packet n
    → IsLeft w e [] x n
    → length packet ≤ w.mps
    → x + length packet < 2 ^ 16
    → (n' : Node) × (take_packets ack (suc fuel) e n ≡ (ok (packet ∷ []), n'))
      × ((n'.usb.endpoint e).xferred_len ≡ x + length packet)
      × ((n'.usb.endpoint e).remaining_len ≡ 0)
unfolding take_packets
send_last ack w e x fuel n packet is_ack wiring ready loaded left le fits =
    let n1 : Node = acked ack e n in
    let through = acked-IsThrough ack w e x n packet [] is_ack wiring ready loaded left in
    let (positive, small, apart, c_main, b_main) = wiring in
    let (role, device, tx, size, hw, ctrl, buf, room) = ready in
    let (partial, none_left, read, away, sent) = left in
    let taken = take_lem ack w e n packet ready loaded in
    let (n', complete, total, over) =
      complete_lem e (length packet) x n1 through (omega (arith, size)) (omega (arith, size))
        none_left sent fits in
    (n', ground (arith, taken, complete), total, over)

abbrev IsSent : (ℕ → ℕ) → ℕ → ℕ → ℕ → List ℕ → List ℕ → ℕ → Node → Type 0
IsSent ack size fuel e packet bytes x n =
    (others : List (List ℕ)) × (n' : Node) × (take_packets ack fuel e n
      ≡ (ok (packet ∷ others), n'))
    × (joined others ≡ bytes)
    × AreCut size (packet ∷ others)
    × ((n'.usb.endpoint e).xferred_len ≡ x + (length packet + length bytes))
    × ((n'.usb.endpoint e).remaining_len ≡ 0)

send_lem :
    (ack : ℕ → ℕ) (w : Wiring) (e x fuel : ℕ) (n : Node) (packet bytes : List ℕ)
    → IsAck ack
    → IsWiring w
    → IsWired false w e n
    → IsLoaded w packet n
    → IsLeft w e bytes x n
    → length packet ≤ w.mps
    → (0 < length bytes → length packet ≡ w.mps)
    → x + (length packet + length bytes) < 2 ^ 16
    → length bytes < fuel
    → IsSent ack w.mps fuel e packet bytes x n
unfolding take_packets
send_lem ack w e x zero n packet bytes is_ack wiring ready loaded left le whole fits enough =
    absurd (omega arith)
send_lem ack w e x (suc fuel) n packet [] is_ack wiring ready loaded left le whole fits enough =
    let (n', sends, total, over) =
      send_last ack w e x fuel n packet is_ack wiring ready loaded left le (omega arith) in
    ([], n', sends, refl, le, omega arith, over)
send_lem ack w e x (suc fuel) n packet (c ∷ cs) is_ack wiring ready loaded left le whole fits
      enough =
    let bytes : List ℕ = c ∷ cs in
    let n1 : Node = acked ack e n in
    let p : ℕ = length packet in
    let k : ℕ = min (length bytes) w.mps in
    let size : p ≡ w.mps = whole (omega arith) in
    let (positive, small, apart, c_main, b_main) = wiring in
    let (role, device, tx, is_mps, hw, ctrl, buf, room) = ready in
    let (partial, some_left, read, away, sent) = left in
    let through = acked-IsThrough ack w e x n packet bytes is_ack wiring ready loaded left in
    let taken = take_lem ack w e n packet ready loaded in
    let (n2, next, ready', loaded', left') =
      load_lem w e (counted e p n1) bytes (x + p) wiring
        (counted-IsWired w e p n1 (acked-IsWired ack w e n wiring ready))
        (counted-IsLeft w e p x n1 bytes left (omega arith)) in
    let going =
      continue_lem e p n1 through (omega (arith, size)) (omega (arith, size)) (omega arith) n2
        next in
    let first : length (take k bytes) ≡ k = omega (arith, length-take k bytes) in
    let rest : length (drop k bytes) ≡ length bytes - k = length-drop k bytes in
    let (others, n', sends, all, cut, total, over) =
      send_lem ack w e (x + p) fuel n2 (take k bytes) (drop k bytes) is_ack wiring ready' loaded'
        left' (omega arith) (λ more. omega arith) (omega arith) (omega arith) in
    (
      take k bytes ∷ others,
      n',
      ground (arith, taken, going, sends),
      ap (take k bytes ++◌) all ∙ take-append-drop k bytes,
      (size, omega arith, cut),
      omega arith,
      over,
    )

-- For an endpoint of the master that sends, whatever transfer it had before: when the computer reads
-- each packet that is made available, and `hw_endpoint_xfer_continue` runs after each, then
-- `hw_endpoint_xfer_start` with a buffer of fewer than 2 ^ 16 bytes comes to an end, the packets in
-- their order are the bytes of the buffer, all but the last of the full packet size, and at the end
-- the endpoint has counted every byte and has none left.
pub transfer_sends_all :
    (ack : ℕ → ℕ) (w : Wiring) (e : ℕ) (n : Node) (buffer : Pointer) (bytes : List ℕ)
    → IsAck ack
    → IsWiring w
    → IsWired false w e n
    → fetch n.mem buffer (length bytes) ≡ some bytes
    → buffer.block ≢ w.hw.block
    → length bytes < 2 ^ 16
    → (packets : List (List ℕ)) × (n' : Node) × ((hw_endpoint_xfer_start e buffer (length bytes)
            >> take_packets ack (suc (length bytes)) e)
          n
        ≡ (ok packets, n'))
      × (joined packets ≡ bytes)
      × AreCut w.mps packets
      × ((n'.usb.endpoint e).xferred_len ≡ length bytes)
      × ((n'.usb.endpoint e).remaining_len ≡ 0)
transfer_sends_all ack w e n buffer bytes is_ack wiring ready read away small =
    let k : ℕ = min (length bytes) w.mps in
    let first : length (take k bytes) ≡ k = omega (arith, length-take k bytes) in
    let rest : length (drop k bytes) ≡ length bytes - k = length-drop k bytes in
    let (n1, start, ready1, begun, same) = begin_lem false w e n buffer (length bytes) ready in
    let left1 : IsLeft w e bytes 0 n1 = (
      ap (λ r. r.partial) begun,
      ap (λ r. r.remaining_len) begun,
      ground arith,
      ground arith,
      ap (λ r. r.xferred_len) begun,
    ) in
    let (n2, next, ready2, loaded, left2) = load_lem w e n1 bytes 0 wiring ready1 left1 in
    let (others, n', sends, all, cut, total, over) =
      send_lem ack w e 0 (suc (length bytes)) n2 (take k bytes) (drop k bytes) is_ack wiring ready2
        loaded left2 (omega arith) (λ more. omega arith) (omega arith) (omega arith) in
    (
      take k bytes ∷ others,
      n',
      ground (arith, start ∙ next, sends),
      ap (take k bytes ++◌) all ∙ take-append-drop k bytes,
      cut,
      omega arith,
      over,
    )
