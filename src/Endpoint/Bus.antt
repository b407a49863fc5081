-- ===== src/Endpoint/Bus.antt =====
-- The USB controller's part in a transfer, which is not in the repository: `ack` is what it leaves
-- in a buffer control register when the packet of the buffer is through.
use usbsec.Base.{
  ℕ, zero, suc, ◌-◌, not, true, ◌≡◌, ◌≤◌, ◌<◌, false, ◌&&◌, List, [], ◌∷◌, ◌++◌, if◌then◌else◌, has,
  bit_and, length,
}
use usbsec.Node.Monad.{M, Void, pure, halt, Stop, ◌>>=◌, ◌>>◌}
use usbsec.Node.Memory.{load, store}
use usbsec.Regs.{buf_ctrl_full, buf_ctrl_avail, buf_ctrl_len_mask, read_reg, write_reg}
use usbsec.Endpoint.{endpoint, hw_endpoint_xfer_continue}

-- RP2040 datasheet, section 4.1.2.5: a buffer that was sent is not full any more, and its length
-- stays.
pub record IsAck (ack : ℕ → ℕ) : Type 0 where
  pub not_full : (v : ℕ) → has (ack v) buf_ctrl_full ≡ false
  pub same_length : (v : ℕ) → bit_and (ack v) buf_ctrl_len_mask ≡ bit_and v buf_ctrl_len_mask

-- What the computer reads is the bytes of the buffer that is available and full, as many as the
-- length says.
unfoldable pub take_packet : (ℕ → ℕ) → ℕ → M (List ℕ)
unfolding load
take_packet ack e = do
  ep ← endpoint e
  v ← read_reg ep.buffer_control
  if has v buf_ctrl_avail && has v buf_ctrl_full
      then (do
        bytes ← load ep.hw_data_buf (bit_and v buf_ctrl_len_mask)
        write_reg ep.buffer_control (ack v)
        pure bytes)
      else halt Stop.blocked

-- The packets of a transfer to the computer, each followed by the interrupt for it.
unfoldable pub take_packets : (ℕ → ℕ) → ℕ → ℕ → M (List (List ℕ))
unfolding take_packet hw_endpoint_xfer_continue
take_packets ack zero e = halt Stop.spins
take_packets ack (suc fuel) e = do
  packet ← take_packet ack e
  complete ← hw_endpoint_xfer_continue e
  if complete then pure (packet ∷ []) else (do rest ← take_packets ack fuel e; pure (packet ∷ rest))

abbrev pub joined : List (List ℕ) → List ℕ
joined [] = []
joined (p ∷ ps) = p ++ joined ps

-- The packets of a transfer: all but the last have the full size, and the last at most that. Only
-- a transfer of no bytes has an empty packet.
abbrev pub AreCut : ℕ → List (List ℕ) → Type 0
AreCut size [] = ⊥
AreCut size (p ∷ []) = length p ≤ size
AreCut size (p ∷ q ∷ ps) = (length p ≡ size) × (0 < length q) × AreCut size (q ∷ ps)

-- RP2040 datasheet, section 4.1.2.5: a buffer that a packet came into is full, and the length in its
-- register is that of the packet. `deliver` is what the controller leaves in the register.
pub record IsDeliver (deliver : ℕ → ℕ → ℕ) : Type 0 where
  pub full : (v len : ℕ) → len ≤ 64 → has (deliver v len) buf_ctrl_full ≡ true
  pub its_length : (v len : ℕ) → len ≤ 64 → bit_and (deliver v len) buf_ctrl_len_mask ≡ len

-- The computer sends a packet, which goes into a buffer that is available and not full.
unfoldable pub give_packet : (ℕ → ℕ → ℕ) → ℕ → List ℕ → M Void
unfolding store
give_packet deliver e packet = do
  ep ← endpoint e
  v ← read_reg ep.buffer_control
  if has v buf_ctrl_avail && not (has v buf_ctrl_full)
      then (do store ep.hw_data_buf packet; write_reg ep.buffer_control (deliver v (length packet)))
      else halt Stop.blocked

-- The packets of the computer, each followed by the interrupt for it, until the transfer is
-- complete; and the packets that are left over then.
unfoldable pub give_packets : (ℕ → ℕ → ℕ) → ℕ → List (List ℕ) → M (List (List ℕ))
unfolding give_packet hw_endpoint_xfer_continue
give_packets deliver e [] = halt Stop.blocked
give_packets deliver e (packet ∷ packets) = do
  give_packet deliver e packet
  complete ← hw_endpoint_xfer_continue e
  if complete then pure packets else give_packets deliver e packets

-- The packets of a transfer of at most `len` bytes: it ends with a short packet, or with `len` bytes.
abbrev pub AreDelivered : ℕ → ℕ → List (List ℕ) → Type 0
AreDelivered size len [] = ⊥
AreDelivered size len (p ∷ []) =
    (length p ≤ size) × (length p ≤ len) × (size ≤ length p → len ≡ length p)
AreDelivered size len (p ∷ q ∷ ps) =
    (length p ≡ size) × (size < len) × AreDelivered size (len - size) (q ∷ ps)
