-- ===== src/HostEvents/Report.antt =====
-- A packet that the device has sent on an endpoint other than 0, on its way into the queue for the
-- master.
use usbsec.Base.{
  ℕ, zero, suc, ◌+◌, ◌%◌, ◌^◌, ◌≤◌, ◌<◌, ◌≡◌, ◌≢◌, ◌⊎◌, inl, inr, refl, some, true, false, List, [],
  ◌∷◌, ◌++◌, length, take, ap, ◌∙◌, arith, bit_or, if◌then◌else◌, ◌==◌, length-append,
}
use usbsec.Node.Sdk.{Sdk, IsFifo, Message, Store, spi_queue_max_capacity}
use usbsec.Node.State.{Node, slave}
use usbsec.Node.Monad.{ok, runtime_assert}
use usbsec.Node.Memory.{fetch, set_block, first_heap_block, host_bugger, locals, local_bytes}
use usbsec.Node.Memory.Copy.{set_block_self, fetch_whole}
use usbsec.Messages.{enqueue_spi_message}
use usbsec.Messages.MsgType.{is_packet, first_packet, last_packet}
use usbsec.Messages.Contents.{Content}
use usbsec.Messages.Enqueue.{copied}
use usbsec.Messages.Queued.{enqueue_runs}
use usbsec.Messages.Linked.{IsLinked, static-IsLinked, enqueue-IsLinked}
use usbsec.HostEvents.{hcd_event_xfer_complete, send_event_to_master}
use usbsec.HostEvents.Upstream.{written, with_address, stored_lem, fetched_lem, length-sent}

-- the flag of a report: of a whole transfer, or of a buffer of one that goes on
abbrev pub report_flag : ℕ → ℕ
report_flag result = bit_or is_packet (if result == 0 then last_packet else first_packet)

abbrev pub report : ℕ → ℕ → ℕ → List ℕ → Content
report a len result buf = record { flag = report_flag result; bytes = take len buf ++ (a ∷ []) }

abbrev unlocked : Node → Node
unlocked n = record n { host = record (n.host) { debug_lock = false } }

module _ ⦃sdk : Sdk⦄ where
  xfer_step :
      (dev a len result : ℕ) (n : Node)
      → (result ≡ 0) ⊎ (result ≡ 4)
      → a % 128 ≢ 0
      → hcd_event_xfer_complete dev a len result n
        ≡ send_event_to_master len a
            (if result == 0 then last_packet else first_packet)
            (unlocked n)
  unfolding hcd_event_xfer_complete runtime_assert
  xfer_step dev a len result n (inl h) other = ground arith
  xfer_step dev a len result n (inr h) other = ground arith

  send_step :
      (len a flag : ℕ) (n : Node) (buf : List ℕ)
      → n.mem 4 ≡ some buf
      → suc len < length buf
      → send_event_to_master (suc len) a flag n
        ≡ enqueue_spi_message
            (record {
              e_flag = bit_or is_packet flag;
              payload_length = (suc len + 1) % 2 ^ 16;
              payload = host_bugger;
            })
            (with_address n (suc len) buf a)
  unfolding send_event_to_master
  send_step len a flag n buf h small = ground (arith, stored_lem n (suc len) buf a h small)

  send_step_empty :
      (a flag : ℕ) (n : Node)
      → send_event_to_master 0 a flag n
        ≡ enqueue_spi_message
            (record { e_flag = bit_or is_packet flag; payload_length = 1; payload = locals })
            (record n { mem = set_block n.mem 9 (some (a ∷ [])) })
  unfolding send_event_to_master local_bytes
  send_step_empty a flag n = refl

module _ ⦃sdk : Sdk⦄ (fifo : IsFifo sdk)
    (roomy : (mem : Store) (k : ℕ) → sdk.malloc_fits mem k ≡ true) where
  -- what is the case after `c` was queued
  abbrev IsPassed : Node → List Content → List Content → Content → Node → Type 0
  IsPassed n cs ds c n' =
      IsLinked slave n' (cs ++ (c ∷ [])) ds
      × (length (sdk.items n'.tx) ≤ spi_queue_max_capacity)
      × (n'.spi ≡ n.spi)

  -- a message whose payload is a static block, just written
  from_static :
      (n : Node) (cs ds : List Content) (m : Message) (b : ℕ) (block bytes : List ℕ)
      → IsLinked slave n cs ds
      → length (sdk.items n.tx) < spi_queue_max_capacity
      → b ≢ 1
      → b < first_heap_block
      → m.payload.block ≡ b
      → m.payload_length ≡ length bytes
      → fetch (set_block n.mem b (some block)) m.payload (length bytes) ≡ some bytes
      → (n' : Node) × (enqueue_spi_message m (record n { mem = set_block n.mem b (some block) })
          ≡ (ok tt, n'))
        × IsPassed n cs ds (record { flag = m.e_flag; bytes = bytes }) n'
  from_static n cs ds m b block bytes linked room other low at len held =
      let n1 = record n { mem = set_block n.mem b (some block) } in
      let (q, runs, its) =
        enqueue_runs fifo m n1 bytes linked.0.1 (omega (arith, linked.0.1, at))
          (roomy n1.mem (length bytes)) len held room in
      (
        _,
        runs,
        (
          enqueue-IsLinked slave n1 cs ds m bytes q len its
              (static-IsLinked slave n cs ds b block other low linked),
          omega (arith, ap length its, length-append (sdk.items n.tx) (copied n1 m ∷ [])),
          refl,
        ),
      )

  sends_report :
      (n : Node) (cs ds : List Content) (a len flag : ℕ) (buf : List ℕ)
      → IsLinked slave n cs ds
      → length (sdk.items n.tx) < spi_queue_max_capacity
      → n.mem 4 ≡ some buf
      → length buf ≡ 1000
      → len < 1000
      → (n' : Node) × (send_event_to_master len a flag n ≡ (ok tt, n'))
        × IsPassed n cs ds
            (record { flag = bit_or is_packet flag; bytes = take len buf ++ (a ∷ []) })
            n'
  sends_report n cs ds a zero flag buf linked room at size small =
      let (n', runs, passed) =
        from_static n cs ds
          (record { e_flag = bit_or is_packet flag; payload_length = 1; payload = locals }) 9
          (a ∷ []) (a ∷ []) linked room (omega arith) (omega arith) refl refl
          (fetch_whole (set_block n.mem 9 (some (a ∷ []))) 9 (a ∷ [])
            (set_block_self n.mem 9 (some (a ∷ [])))) in
      (n', send_step_empty a flag n ∙ runs, passed)
  sends_report n cs ds a (suc len) flag buf linked room at size small =
      let bytes = take (suc len) buf ++ (a ∷ []) in
      let sent = length-sent (suc len) buf a (omega arith) in
      let (n', runs, passed) =
        from_static n cs ds
          (record {
            e_flag = bit_or is_packet flag;
            payload_length = (suc len + 1) % 2 ^ 16;
            payload = host_bugger;
          })
          4 (written (suc len) buf a) bytes linked room (omega arith) (omega arith) refl
          (omega (arith, sent, small))
          (ap (fetch (with_address n (suc len) buf a).mem host_bugger) sent
            ∙ fetched_lem n (suc len) buf a (omega arith)) in
      (n', send_step len a flag n buf at (omega arith) ∙ runs, passed)

  pub report_queued :
      (n : Node) (cs ds : List Content) (dev a len result : ℕ) (buf : List ℕ)
      → IsLinked slave n cs ds
      → length (sdk.items n.tx) < spi_queue_max_capacity
      → n.mem 4 ≡ some buf
      → length buf ≡ 1000
      → len < 1000
      → (result ≡ 0) ⊎ (result ≡ 4)
      → a % 128 ≢ 0
      → (n' : Node) × (hcd_event_xfer_complete dev a len result n ≡ (ok tt, n'))
        × IsPassed n cs ds (report a len result buf) n'
  report_queued n cs ds dev a len result buf linked room at size small good other =
      let (n', runs, passed) =
        sends_report (unlocked n) cs ds a len (if result == 0 then last_packet else first_packet)
          buf linked room at size small in
      (n', xfer_step dev a len result n good other ∙ runs, passed)
