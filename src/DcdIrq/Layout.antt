-- ===== src/DcdIrq/Layout.antt =====
-- How the endpoints of the master share the USB memory.
use usbsec.Base.{
  ℕ, ◌+◌, ◌%◌, ◌≤◌, ◌<◌, ◌≢◌, ◌≡◌, ◌⊎◌, inl, inr, ap, ◌∙◌, sym, subst, Bool-cases, ◌==◌, arith,
}
use usbsec.Node.Sdk.{Pointer, forward}
use usbsec.Node.State.{UsbState, HwEndpoint}
use usbsec.Regs.{epx_data}

-- The buffer of an endpoint with packets of up to `size` bytes, one of size 0 not being open, lies
-- between the first 0x180 bytes of the USB memory and the place where the next buffer begins.
abbrev pub IsPlaced : Pointer → Pointer → ℕ → Type 0
IsPlaced next hw size = 0 < size → (hw.block ≡ 8) × (epx_data ≤ hw.off) × (hw.off + size ≤ next.off)

abbrev pub AreDisjoint : Pointer → ℕ → Pointer → ℕ → Type 0
AreDisjoint hw size hw' size' =
    0 < size → 0 < size' → (hw.off + size ≤ hw'.off) ⊎ (hw'.off + size' ≤ hw.off)

-- The place of the next buffer is aligned and within the 4 kB; every endpoint but those of number 0
-- has its buffer, and no two have bytes in common.
abbrev pub IsShared : UsbState → Type 0
IsShared u =
    let next = u.next_buffer_ptr in
    let hw : ℕ → Pointer = λ e. (u.endpoint e).hw_data_buf in
    let size : ℕ → ℕ = λ e. (u.endpoint e).w_max_packet_size in
    ((next.block ≡ 8) × (next.off % 64 ≡ 0) × (epx_data ≤ next.off) × (next.off ≤ 4096))
    × ((e : ℕ) → 2 ≤ e → e < 32 → IsPlaced next (hw e) (size e))
    × ((e f : ℕ)
        → 2 ≤ e
        → e < 32
        → 2 ≤ f
        → f < 32
        → e ≢ f
        → AreDisjoint (hw e) (size e) (hw f) (size f))

-- It goes by the places and the sizes only.
pub same-IsShared :
    (u v : UsbState)
    → v.next_buffer_ptr ≡ u.next_buffer_ptr
    → ((e : ℕ) → 2 ≤ e → (v.endpoint e).hw_data_buf ≡ (u.endpoint e).hw_data_buf)
    → ((e : ℕ) → 2 ≤ e → (v.endpoint e).w_max_packet_size ≡ (u.endpoint e).w_max_packet_size)
    → IsShared u
    → IsShared v
same-IsShared u v same hw size ((block, aligned, above, within), placed, disjoint) = (
  (
    ap (λ p. p.block) same ∙ block,
    ap (λ p. p.off % 64) same ∙ aligned,
    omega (arith, ap (λ p. p.off) same),
    omega (arith, ap (λ p. p.off) same),
  ),
  (λ e low high active.
      let (b, l, h) = placed e low high (omega (arith, size e low)) in
      (
        ap (λ p. p.block) (hw e low) ∙ b,
        omega (arith, ap (λ p. p.off) (hw e low)),
        omega (arith, ap (λ p. p.off) (hw e low), size e low, ap (λ p. p.off) same),
      )),
  (λ e f low high low' high' apart active active'.
      elim (disjoint e f low high low' high' apart (omega (arith, size e low))
        (omega (arith, size f low'))) [
          | inl before ↦
              inl
                (omega (arith, ap (λ p. p.off) (hw e low), ap (λ p. p.off) (hw f low'), size e low))
          | inr behind ↦
              inr (
                omega (arith, ap (λ p. p.off) (hw e low), ap (λ p. p.off) (hw f low'), size f low'))
        ]),
)

-- One more endpoint gets its buffer, at the end of those before it.
module _ (u v : UsbState) (e0 size room : ℕ) (fits : size ≤ room)
    (next : v.next_buffer_ptr ≡ forward u.next_buffer_ptr room)
    (hw0 : (v.endpoint e0).hw_data_buf ≡ u.next_buffer_ptr)
    (size0 : (v.endpoint e0).w_max_packet_size ≡ size)
    (others : (e : ℕ) → e ≢ e0 → v.endpoint e ≡ u.endpoint e) (shared : IsShared u) where
  -- the buffer of another endpoint ends where the new one begins, or before
  old_end :
      (e : ℕ)
      → e ≢ e0
      → 2 ≤ e
      → e < 32
      → 0 < (v.endpoint e).w_max_packet_size
      → ((v.endpoint e).hw_data_buf.block ≡ 8)
        × (epx_data ≤ (v.endpoint e).hw_data_buf.off)
        × ((v.endpoint e).hw_data_buf.off + (v.endpoint e).w_max_packet_size
            ≤ u.next_buffer_ptr.off)
  old_end e other low high active =
      let (bounds, placed, disjoint) = shared in
      let same = others e other in
      subst
        (λ (r : HwEndpoint).
          (r.hw_data_buf.block ≡ 8)
          × (epx_data ≤ r.hw_data_buf.off)
          × (r.hw_data_buf.off + r.w_max_packet_size ≤ u.next_buffer_ptr.off))
        (sym same) (placed e low high (omega (arith, ap (λ r. r.w_max_packet_size) same)))

  new_start : (e : ℕ) → e ≡ e0 → (v.endpoint e).hw_data_buf ≡ u.next_buffer_ptr
  new_start e same = ap (λ k. (v.endpoint k).hw_data_buf) same ∙ hw0

  new_size : (e : ℕ) → e ≡ e0 → (v.endpoint e).w_max_packet_size ≡ size
  new_size e same = ap (λ k. (v.endpoint k).w_max_packet_size) same ∙ size0

  now-IsPlaced :
      (e : ℕ)
      → 2 ≤ e
      → e < 32
      → IsPlaced v.next_buffer_ptr (v.endpoint e).hw_data_buf (v.endpoint e).w_max_packet_size
  now-IsPlaced e low high active =
      let ((block, aligned, above, within), placed, disjoint) = shared in
      let end : v.next_buffer_ptr.off ≡ u.next_buffer_ptr.off + room = ap (λ p. p.off) next in
      elim (Bool-cases (e == e0)) [
        | inl same ↦
            let at = new_start e (ground arith) in
            (
              ap (λ p. p.block) at ∙ block,
              omega (arith, ap (λ p. p.off) at),
              omega (arith, ap (λ p. p.off) at, new_size e (ground arith), end),
            )
        | inr other ↦
            let (b, l, h) = old_end e (ground arith) low high active in
            (b, l, omega (arith, h, end))
      ]

  now-AreDisjoint :
      (e f : ℕ)
      → 2 ≤ e
      → e < 32
      → 2 ≤ f
      → f < 32
      → e ≢ f
      → AreDisjoint
          (v.endpoint e).hw_data_buf
          (v.endpoint e).w_max_packet_size
          (v.endpoint f).hw_data_buf
          (v.endpoint f).w_max_packet_size
  now-AreDisjoint e f low high low' high' apart active active' =
      let (bounds, placed, disjoint) = shared in
      elim (Bool-cases (e == e0)) [
        | inl same ↦
            let (b, l, h) = old_end f (ground arith) low' high' active' in
            inr (omega (arith, h, ap (λ p. p.off) (new_start e (ground arith))))
        | inr other ↦ elim (Bool-cases (f == e0)) [
          | inl same ↦
              let (b, l, h) = old_end e (ground arith) low high active in
              inl (omega (arith, h, ap (λ p. p.off) (new_start f (ground arith))))
          | inr other' ↦
              let at = others e (ground arith) in
              let at' = others f (ground arith) in
              subst
                (λ (r : HwEndpoint).
                  AreDisjoint r.hw_data_buf r.w_max_packet_size (v.endpoint f).hw_data_buf
                    (v.endpoint f).w_max_packet_size)
                (sym at)
                (subst
                  (λ (r : HwEndpoint).
                    AreDisjoint (u.endpoint e).hw_data_buf (u.endpoint e).w_max_packet_size
                      r.hw_data_buf r.w_max_packet_size)
                  (sym at') (disjoint e f low high low' high' apart))
                active active'
        ]
      ]

  pub opened-IsShared : room % 64 ≡ 0 → v.next_buffer_ptr.off ≤ 4096 → IsShared v
  opened-IsShared whole within' =
      let ((block, aligned, above, within), placed, disjoint) = shared in
      let end : v.next_buffer_ptr.off ≡ u.next_buffer_ptr.off + room = ap (λ p. p.off) next in
      (
        (ap (λ p. p.block) next ∙ block, omega (arith, end), omega (arith, end), within'),
        now-IsPlaced,
        now-AreDisjoint,
      )
