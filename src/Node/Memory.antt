-- ===== src/Node/Memory.antt =====
-- Memory by blocks, as the C standard describes it: `malloc`, `free`, `memcpy`, `memset`, and
-- the blocks of the arrays that the sources declare. An access has to lie within one block.
pub mod Copy
pub mod Bytes
pub mod Stretch
pub mod Within
use usbsec.Base.{
  true, false, ℕ, ◌+◌, ◌*◌, Option, none, some, List, [], ◌++◌, ◌==◌, leb, if◌then◌else◌, length,
  take, drop, replicate, get_or,
}
use usbsec.Node.Sdk.{Sdk, Pointer, null, is_null, Store}
use usbsec.Node.Monad.{M, Void, ok, stop, Stop, pure, ◌>>=◌}

-- The static arrays and structs, and one block for the local variables that are pointed to.
abbrev pub messages_bugger : Pointer
messages_bugger = record { block = 1; off = 0 }

abbrev pub drivers_bugger : Pointer
drivers_bugger = record { block = 2; off = 0 }

abbrev pub aggregator_bugger : Pointer
aggregator_bugger = record { block = 3; off = 0 }

abbrev pub host_bugger : Pointer
host_bugger = record { block = 4; off = 0 }

abbrev pub reserve_bugger : Pointer
reserve_bugger = record { block = 5; off = 0 }

abbrev pub device_setup : Pointer
device_setup = record { block = 6; off = 0 }

abbrev pub host_setup_packet : Pointer
host_setup_packet = record { block = 7; off = 0 }

-- the 4 kB of USB memory, `usb_dpram` and `usbh_dpram`
abbrev pub dpram : Pointer
dpram = record { block = 8; off = 0 }

abbrev pub locals : Pointer
locals = record { block = 9; off = 0 }

-- The blocks of `malloc` are numbered from here.
abbrev pub first_heap_block : ℕ
first_heap_block = 16

abbrev pub set_block : Store → ℕ → Option (List ℕ) → Store
set_block mem b v k = if k == b then v else mem k

abbrev pub splice : List ℕ → ℕ → List ℕ → List ℕ
splice old off new = take off old ++ (new ++ drop (off + length new) old)

-- `n` bytes from `p` on. No pointer is followed where `n` is 0.
unfoldable pub fetch : Store → Pointer → ℕ → Option (List ℕ)
fetch mem p n = if n == 0 then some [] else (elim (mem p.block) [
  | none ↦ none
  | some bytes ↦ if leb (p.off + n) (length bytes) then some (take n (drop p.off bytes)) else none
])

-- The memory after the bytes `new` are written from `p` on.
unfoldable pub poke : Store → Pointer → List ℕ → Option Store
poke mem p new = if length new == 0 then some mem else (elim (mem p.block) [
  | none ↦ none
  | some old ↦
      if leb (p.off + length new) (length old)
      then some (set_block mem p.block (some (splice old p.off new)))
      else none
])

unfoldable pub load : Pointer → ℕ → M (List ℕ)
load p n node = elim (fetch node.mem p n) [
  | none ↦ (stop Stop.fault, node)
  | some bytes ↦ (ok bytes, node)
]

unfoldable pub store : Pointer → List ℕ → M Void
store p new node = elim (poke node.mem p new) [
  | none ↦ (stop Stop.fault, node)
  | some mem ↦ (ok tt, record node { mem = mem })
]

unfoldable pub memcpy : Pointer → Pointer → ℕ → M Void
unfolding load store
memcpy to from n = load from n >>= store to

unfoldable pub memset : Pointer → ℕ → ℕ → M Void
unfolding store
memset to c n = store to (replicate n c)

unfoldable pub load_byte : Pointer → M ℕ
unfolding load
load_byte p = do bytes ← load p 1; pure (get_or bytes 0 0)

-- a little-endian `uint16_t` field
unfoldable pub load_u16 : Pointer → M ℕ
unfolding load
load_u16 p = do bytes ← load p 2; pure (get_or bytes 0 0 + get_or bytes 1 0 * 256)

-- `NULL` where there is no room; what a new block holds is not specified, and is never read
unfoldable pub malloc : ⦃sdk : Sdk⦄ → ℕ → M Pointer
malloc ⦃sdk⦄ n node = elim (sdk.malloc_fits node.mem n) [
  | true ↦ (
    ok (record { block = node.next_block; off = 0 }),
    record node {
      mem = set_block node.mem node.next_block (some (replicate n 0));
      next_block = node.next_block + 1;
    },
  )
  | false ↦ (ok null, node)
]

-- `free(NULL)` does nothing; freeing what is not allocated is a fault
unfoldable pub free : Pointer → M Void
free p node = elim (is_null p) [
  | true ↦ (ok tt, node)
  | false ↦ elim (node.mem p.block) [
    | none ↦ (stop Stop.fault, node)
    | some _ ↦ (ok tt, record node { mem = set_block node.mem p.block none })
  ]
]

-- The local variables of a function that hands out a pointer to them.
unfoldable pub local_bytes : List ℕ → M Pointer
local_bytes bytes node =
    (ok locals, record node { mem = set_block node.mem locals.block (some bytes) })
