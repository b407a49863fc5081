-- ===== src/Aggregator/Collect.antt =====
-- The packets of a response in the aggregator's array of 1024 bytes.
use usbsec.Base.{ℕ, ◌+◌, ◌<◌, ◌≢◌, ◌≡◌, List, some, none, length, arith}
use usbsec.Node.Sdk.{Store, Message, Pointer, forward}
use usbsec.Node.State.{Node}
use usbsec.Node.Monad.{stop, Stop}
use usbsec.Node.Memory.{aggregator_bugger, fetch, poke, load, store, memcpy}
use usbsec.Aggregator.{register_response}

-- writing beyond the end of a block is refused
poke_beyond :
    (mem : Store) (p : Pointer) (old bs : List ℕ)
    → mem p.block ≡ some old
    → length bs ≢ 0
    → length old < p.off + length bs
    → poke mem p bs ≡ none
unfolding poke
poke_beyond mem p old bs h nz big = ground arith

-- A response packet that is not empty and does not fit behind what the array already holds is
-- written beyond its end, which is a fault: the source makes no check of its own. The packet can
-- be read, and block 3 is the array.
pub register_response_overflows :
    (m : Message) (n : Node) (old bytes : List ℕ)
    → n.mem 3 ≡ some old
    → fetch n.mem m.payload m.payload_length ≡ some bytes
    → length bytes ≢ 0
    → length old < n.aggregator.len + length bytes
    → register_response m n ≡ (stop Stop.fault, n)
unfolding register_response memcpy load store
register_response_overflows m n old bytes h r nz big =
    ground (arith, poke_beyond n.mem (forward aggregator_bugger n.aggregator.len) old bytes)
