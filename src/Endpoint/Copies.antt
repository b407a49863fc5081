-- ===== src/Endpoint/Copies.antt =====
-- The two copies of a packet in the memory: in the buffer of the controller, and in its place in the
-- buffer of the transfer.
use usbsec.Base.{ℕ, ◌+◌, ◌≤◌, ◌≢◌, ◌≡◌, ◌∙◌, sym, List, ◌++◌, some, length}
use usbsec.Node.Sdk.{Pointer, Store, forward}
use usbsec.Node.Memory.{fetch, poke}
use usbsec.Node.Memory.Within.{fetch_frame, poke_within, poke_behind}

-- the memory when a packet is in the buffer `hw`, and when it is copied behind what came before
abbrev pub AreCopied : Pointer → Pointer → List ℕ → List ℕ → Store → ℕ → ℕ → Store → Store → Type 0
AreCopied hw buffer got packet mem hw_size size mem1 mem2 =
    (poke mem hw packet ≡ some mem1)
    × (fetch mem1 hw (length packet) ≡ some packet)
    × (poke mem1 (forward buffer (length got)) packet ≡ some mem2)
    × (fetch mem2 buffer (length (got ++ packet)) ≡ some (got ++ packet))
    × ((old : List ℕ) × (mem2 hw.block ≡ some old) × (length old ≡ hw_size))
    × ((all : List ℕ) × (mem2 buffer.block ≡ some all) × (length all ≡ size))

pub copy_lem :
    (mem : Store) (hw buffer : Pointer) (old all got packet : List ℕ)
    → mem hw.block ≡ some old
    → hw.off + length packet ≤ length old
    → mem buffer.block ≡ some all
    → buffer.off + length got + length packet ≤ length all
    → fetch mem buffer (length got) ≡ some got
    → buffer.block ≢ hw.block
    → (mem1 : Store) × (mem2 : Store) × AreCopied hw buffer got packet mem
        (length old)
        (length all)
        mem1
        mem2
copy_lem mem hw buffer old all got packet at wide at_all behind read away =
    let (mem1, in_buffer, there, elsewhere, (old1, at1, size1)) =
      poke_within mem hw old packet at wide in
    let still : mem1 buffer.block ≡ some all = elsewhere buffer.block away ∙ at_all in
    let read1 : fetch mem1 buffer (length got) ≡ some got =
      fetch_frame mem mem1 buffer (length got) (elsewhere buffer.block away) ∙ read in
    let (mem2, copied, whole, others, (all2, at2, size2)) =
      poke_behind mem1 buffer all got packet still behind read1 in
    (
      mem1,
      mem2,
      (
        in_buffer,
        there,
        copied,
        whole,
        (old1, others hw.block (λ same. away (sym same)) ∙ at1, size1),
        (all2, at2, size2),
      ),
    )
