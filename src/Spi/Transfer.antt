-- ===== src/Spi/Transfer.antt =====
-- What one transfer does, and that the receiver gets what was sent.
use usbsec.Base.{
  ℕ, ◌/◌, ◌%◌, ◌<◌, ◌≡◌, refl, ap, ◌∙◌, List, [], ◌∷◌, ◌++◌, some, length, length-append, arith,
  take-append, drop-append, append_assoc,
}
use usbsec.Node.Sdk.{Store, Pointer}
use usbsec.Node.State.{Node}
use usbsec.Node.Monad.{ok}
use usbsec.Node.Memory.{load, store, fetch, poke}
use usbsec.Spi.{hunt, await_start, wire_read, spi_send_blocking, spi_receive_blocking}
use usbsec.Spi.Frame.{header, frame, IsIdle}

-- after idle bytes the hunt stops at the start byte
hunt-idle :
    (d : ℕ) (idle bytes : List ℕ) → IsIdle idle → hunt d (idle ++ 0xff ∷ bytes) ≡ (0xff, some bytes)
unfolding hunt
hunt-idle d [] bytes h = refl
hunt-idle d (b ∷ idle) bytes h = ground (arith, hunt-idle b idle bytes h.1)

-- the wire after a transmission, and the flag that it leaves
abbrev pub sent : Node → ℕ → List ℕ → Node
sent n flag out = record n { spi = record (n.spi) { flag = flag; wire_out = out } }

send_header :
    (p : Pointer) (len flag : ℕ) (n : Node) (bytes : List ℕ)
    → fetch n.mem p len ≡ some bytes
    → spi_send_blocking p len flag n
      ≡ (ok tt, sent n flag ((n.spi.wire_out ++ header n.spi.dummy len flag []) ++ bytes))
unfolding spi_send_blocking load
send_header p len flag n bytes h = ground arith

-- With `dummy` as a completed reception leaves it, a transmission puts one frame on the wire.
pub send_lem :
    (p : Pointer) (flag : ℕ) (n : Node) (bytes : List ℕ)
    → n.spi.dummy ≡ 0xff
    → fetch n.mem p (length bytes) ≡ some bytes
    → spi_send_blocking p (length bytes) flag n
      ≡ (ok tt, sent n flag (n.spi.wire_out ++ frame bytes flag))
send_lem p flag n bytes d h =
    send_header p (length bytes) flag n bytes h ∙ ap (λ out. (ok tt, sent n flag out)) joined
  where
    joined :
        (n.spi.wire_out ++ header n.spi.dummy (length bytes) flag []) ++ bytes
        ≡ n.spi.wire_out ++ frame bytes flag
    joined = rw d (append_assoc n.spi.wire_out (header 0xff (length bytes) flag []) bytes)

abbrev pub received : Node → ℕ → List ℕ → Store → Node
received n flag rest mem = record n {
  mem = mem;
  spi = record (n.spi) { flag = flag; dummy = 0xff; wire_in = rest };
}

pub receive_lem :
    (p : Pointer) (flag : ℕ) (n : Node) (idle bytes rest : List ℕ) (mem : Store)
    → n.spi.wire_in ≡ idle ++ (frame bytes flag ++ rest)
    → IsIdle idle
    → length bytes < 65536
    → flag < 65536
    → poke n.mem p bytes ≡ some mem
    → spi_receive_blocking p n ≡ (ok (length bytes), received n flag rest mem)
unfolding spi_receive_blocking await_start wire_read store
receive_lem p flag n idle bytes rest mem w i hl hf h = ground (
  arith,
  hunt-idle n.spi.dummy idle
      (length bytes % 256 ∷ length bytes / 256 % 256 ∷ flag % 256 ∷ flag / 256 % 256 ∷ bytes
        ++ rest)
      i,
  take-append bytes rest,
  drop-append bytes rest,
  length-append bytes rest,
)

-- A reception gets the data and the flag of the transmission that was put on its wire, whatever
-- idle bytes come first: it stores exactly the bytes that the sender read, returns their number,
-- takes the sender's flag, leaves the rest of the wire, and is ready to transmit in its turn. The
-- length and the flag have to fit 16 bits, as they do in the source, the sender's wire is empty
-- before, and the data fits the receiver's buffer.
pub receive-send :
    (p q : Pointer) (flag : ℕ) (s r : Node) (idle bytes rest : List ℕ) (mem : Store)
    → s.spi.dummy ≡ 0xff
    → s.spi.wire_out ≡ []
    → fetch s.mem p (length bytes) ≡ some bytes
    → length bytes < 65536
    → flag < 65536
    → IsIdle idle
    → poke r.mem q bytes ≡ some mem
    → r.spi.wire_in ≡ idle ++ ((spi_send_blocking p (length bytes) flag s).1.spi.wire_out ++ rest)
    → spi_receive_blocking q r ≡ (ok (length bytes), received r flag rest mem)
receive-send p q flag s r idle bytes rest mem ready empty h hl hf i room wire =
    receive_lem q flag r idle bytes rest mem (wire ∙ ap (λ out. idle ++ (out ++ rest)) on_wire) i hl
      hf room
  where
    on_wire : (spi_send_blocking p (length bytes) flag s).1.spi.wire_out ≡ frame bytes flag
    on_wire =
        ap (λ o. o.1.spi.wire_out) (send_lem p flag s bytes ready h)
        ∙ ap (λ w. w ++ frame bytes flag) empty
