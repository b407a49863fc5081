-- ===== src/Spi.antt =====
-- pico_firmware/src/lib/messages/spi_data.c: framed transfers over the SPI wire. The SDK's
-- `spi_write_blocking` hands its bytes to `wire_out`; `spi_read_blocking` takes them from
-- `wire_in`, and waits where there are too few. The delay of the master has no effect here.
pub mod Frame
pub mod Transfer
use usbsec.Base.{
  true, false, ℕ, ◌+◌, ◌*◌, ◌/◌, ◌%◌, Bool, Option, none, some, List, [], ◌∷◌, ◌++◌, ◌==◌, leb,
  if◌then◌else◌, length, take, drop, get_or,
}
use usbsec.Node.Sdk.{Pointer}
use usbsec.Node.State.{Node}
use usbsec.Node.Monad.{M, Void, ok, stop, Stop, pure, gets, modify, ◌>>=◌, ◌>>◌}
use usbsec.Node.Memory.{load, store}

wire_write : List ℕ → M Void
wire_write bytes =
    modify (λ n. record n { spi = record (n.spi) { wire_out = n.spi.wire_out ++ bytes } })

wire_read : ℕ → M (List ℕ)
wire_read k n = elim (leb k (length n.spi.wire_in)) [
  | true ↦ (
    ok (take k n.spi.wire_in),
    record n { spi = record (n.spi) { wire_in = drop k n.spi.wire_in } },
  )
  | false ↦ (stop Stop.blocked, n)
]

unfoldable pub spi_send_blocking : Pointer → ℕ → ℕ → M Void
unfolding wire_write
spi_send_blocking from len new_flag = do
  modify (λ n. record n { spi = record (n.spi) { flag = new_flag } })
  dummy ← gets (λ n. n.spi.dummy)
  flag ← gets (λ n. n.spi.flag)
  let hdr = dummy ∷ len % 256 ∷ len / 256 % 256 ∷ flag % 256 ∷ flag / 256 % 256 ∷ []
  wire_write hdr
  bytes ← load from len
  wire_write bytes

-- The loop that reads single bytes into `dummy` until one is 0xff: the last byte that it read,
-- and what is left on the wire after a 0xff.
pub hunt : ℕ → List ℕ → ℕ × Option (List ℕ)
hunt dummy [] = (dummy, none)
hunt dummy (b ∷ bytes) = if b == 0xff then (b, some bytes) else hunt b bytes

await_start : M Void
unfolding hunt
await_start n =
    let (dummy, left) = hunt n.spi.dummy n.spi.wire_in in
    elim left [
      | none ↦
          (stop Stop.blocked, record n { spi = record (n.spi) { dummy = dummy; wire_in = [] } })
      | some bytes ↦ (ok tt, record n { spi = record (n.spi) { dummy = dummy; wire_in = bytes } })
    ]

unfoldable pub spi_receive_blocking : Pointer → M ℕ
unfolding await_start wire_read
spi_receive_blocking to = do
  await_start
  hdr ← wire_read 4
  let len = get_or hdr 0 0 + get_or hdr 1 0 * 256
  bytes ← wire_read len
  store to bytes
  let flag = get_or hdr 2 0 + get_or hdr 3 0 * 256
  modify (λ n. record n { spi = record (n.spi) { flag = flag } })
  pure len
