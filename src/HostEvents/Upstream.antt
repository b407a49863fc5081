-- ===== src/HostEvents/Upstream.antt =====
-- What the slave queues for the master when the device has sent data.
use usbsec.Base.{
  ℕ, zero, suc, ◌+◌, ◌%◌, ◌^◌, ◌≡◌, ◌≤◌, ◌<◌, refl, ap, ◌∙◌, List, [], ◌∷◌, ◌++◌, some, true,
  length, take, drop, arith, bit_or, length-append, length-take,
}
use usbsec.Node.Sdk.{Sdk, IsFifo, spi_queue_max_capacity, forward, Store}
use usbsec.Node.State.{Node}
use usbsec.Node.Monad.{ok, stop, Stop}
use usbsec.Node.Memory.{
  first_heap_block, fetch, poke, store, local_bytes, set_block, splice, host_bugger, locals,
}
use usbsec.Node.Memory.Copy.{set_block_self, fetch_whole}
use usbsec.Messages.MsgType.{is_packet}
use usbsec.Messages.Queued.{IsQueued, enqueue_lem}
use usbsec.HostEvents.{send_event_to_master}

-- the list with `a` at place `len`
abbrev pub written : ℕ → List ℕ → ℕ → List ℕ
written len buf a = take len buf ++ (a ∷ drop (suc len) buf)

add_one : (len : ℕ) → len + 1 ≡ suc len
add_one len = omega arith

splice-written : (len : ℕ) (buf : List ℕ) (a : ℕ) → splice buf len (a ∷ []) ≡ written len buf a
splice-written len buf a = ap (λ k. take len buf ++ (a ∷ drop k buf)) (add_one len)

take-written :
    (len : ℕ) (buf : List ℕ) (a : ℕ)
    → len < length buf
    → take (suc len) (written len buf a) ≡ take len buf ++ (a ∷ [])
take-written zero buf a h = refl
take-written (suc len) [] a h = absurd (omega arith)
take-written (suc len) (x ∷ buf) a h = ap (λ r. x ∷ r) (take-written len buf a (omega arith))

length-written :
    (len : ℕ) (buf : List ℕ) (a : ℕ) → len < length buf → length (written len buf a) ≡ length buf
length-written zero [] a h = absurd (omega arith)
length-written zero (x ∷ buf) a h = refl
length-written (suc len) [] a h = absurd (omega arith)
length-written (suc len) (x ∷ buf) a h = ap suc (length-written len buf a (omega arith))

-- the buffer with the address of the endpoint behind the data
abbrev pub with_address : Node → ℕ → List ℕ → ℕ → Node
with_address n len buf a = record n { mem = set_block n.mem 4 (some (written len buf a)) }

pub stored_lem :
    (n : Node) (len : ℕ) (buf : List ℕ) (a : ℕ)
    → n.mem 4 ≡ some buf
    → len < length buf
    → store (forward host_bugger len) (a ∷ []) n ≡ (ok tt, with_address n len buf a)
unfolding store poke
stored_lem n len buf a h small = ground (arith, splice-written len buf a)

pub fetched_lem :
    (n : Node) (len : ℕ) (buf : List ℕ) (a : ℕ)
    → len < length buf
    → fetch (with_address n len buf a).mem host_bugger (suc len) ≡ some (take len buf ++ (a ∷ []))
unfolding fetch
fetched_lem n len buf a small = ground (
  arith,
  set_block_self n.mem 4 (some (written len buf a)),
  length-written len buf a small,
  take-written len buf a small,
)

pub length-sent :
    (len : ℕ) (buf : List ℕ) (a : ℕ)
    → len ≤ length buf
    → length (take len buf ++ (a ∷ [])) ≡ suc len
length-sent len buf a h = omega (arith, length-append (take len buf) (a ∷ []), length-take len buf)

module _ ⦃sdk : Sdk⦄ (fifo : IsFifo sdk) where
  send_data :
      (len a flag : ℕ) (n : Node) (buf : List ℕ)
      → n.mem 4 ≡ some buf
      → suc len < length buf
      → length buf ≡ 1000
      → first_heap_block ≤ n.next_block
      → ((mem : Store) → sdk.malloc_fits mem (suc len + 1) ≡ true)
      → length (sdk.items n.tx) < spi_queue_max_capacity
      → (n' : Node) × (send_event_to_master (suc len) a flag n ≡ (ok tt, n'))
        × IsQueued
            (record { flag = bit_or is_packet flag; bytes = take (suc len) buf ++ (a ∷ []) })
            n
            n'
  unfolding send_event_to_master
  send_data len a flag n buf h small size heap fits space =
      let bytes = take (suc len) buf ++ (a ∷ []) in
      let n1 = with_address n (suc len) buf a in
      let sent = length-sent (suc len) buf a (omega arith) in
      let (n', runs, queued) =
        enqueue_lem fifo
          (record {
            e_flag = bit_or is_packet flag;
            payload_length = (suc len + 1) % 2 ^ 16;
            payload = host_bugger;
          })
          n1 bytes heap (omega arith)
          (ap (sdk.malloc_fits n1.mem) (omega (arith, sent)) ∙ fits n1.mem) (omega (arith, sent))
          (ap (fetch n1.mem host_bugger) sent ∙ fetched_lem n (suc len) buf a small) space in
      (n', ground (arith, stored_lem n (suc len) buf a h small, runs), queued)

  send_empty :
      (a flag : ℕ) (n : Node)
      → first_heap_block ≤ n.next_block
      → ((mem : Store) → sdk.malloc_fits mem 1 ≡ true)
      → length (sdk.items n.tx) < spi_queue_max_capacity
      → (n' : Node) × (send_event_to_master 0 a flag n ≡ (ok tt, n'))
        × IsQueued (record { flag = bit_or is_packet flag; bytes = a ∷ [] }) n n'
  unfolding send_event_to_master local_bytes
  send_empty a flag n heap fits space =
      let n1 = (local_bytes (a ∷ []) n).1 in
      let (n', runs, queued) =
        enqueue_lem fifo
          (record { e_flag = bit_or is_packet flag; payload_length = 1; payload = locals }) n1
          (a ∷ []) heap (omega arith) (fits n1.mem) refl
          (fetch_whole n1.mem 9 (a ∷ []) (set_block_self n.mem 9 (some (a ∷ [])))) space in
      (n', runs, queued)

  -- When the device has sent `len` bytes on the endpoint `a`, the slave queues them for the master
  -- in one message, with the address of the endpoint behind them and the flag of a packet set, as
  -- long as `len` is less than the 1000 bytes of its buffer and there is room in the heap and the
  -- queue.
  pub send_event_to_master_lem :
      (len a flag : ℕ) (n : Node) (buf : List ℕ)
      → n.mem 4 ≡ some buf
      → length buf ≡ 1000
      → len < 1000
      → first_heap_block ≤ n.next_block
      → ((mem : Store) → sdk.malloc_fits mem (len + 1) ≡ true)
      → length (sdk.items n.tx) < spi_queue_max_capacity
      → (n' : Node) × (send_event_to_master len a flag n ≡ (ok tt, n'))
        × IsQueued (record { flag = bit_or is_packet flag; bytes = take len buf ++ (a ∷ []) }) n n'
  send_event_to_master_lem zero a flag n buf h size small heap fits space =
      send_empty a flag n heap fits space
  send_event_to_master_lem (suc len) a flag n buf h size small heap fits space =
      send_data len a flag n buf h (omega arith) size heap fits space

module _ ⦃sdk : Sdk⦄ where
  -- With 1000 bytes or more the address of the endpoint is written past the end of the buffer.
  pub send_event_overflows :
      (len a flag : ℕ) (n : Node) (buf : List ℕ)
      → n.mem 4 ≡ some buf
      → length buf ≡ 1000
      → 1000 ≤ len
      → send_event_to_master len a flag n ≡ (stop Stop.fault, n)
  unfolding send_event_to_master store poke
  send_event_overflows len a flag n buf h size large = ground arith
