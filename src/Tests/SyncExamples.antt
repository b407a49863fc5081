-- ===== src/Tests/SyncExamples.antt =====
-- The exchange of messages at concrete wires.
use usbsec.Base.{
  ℕ, ◌≡◌, some, if◌then◌else◌, ◌==◌, refl, List, [], ◌∷◌, ◌++◌, length, replicate, arith,
}
use usbsec.Node.Sdk.{Message}
use usbsec.Node.State.{Node, slave, master}
use usbsec.Node.Monad.{ok}
use usbsec.Node.Memory.{load, fetch, free}
use usbsec.Spi.{spi_send_blocking}
use usbsec.Spi.Frame.{frame}
use usbsec.Messages.{
  send_all, receive_until_query, send_count, receive_count, queue_remove_blocking,
}
use usbsec.Messages.Contents.{Content, StandFor, NotAmong}
use usbsec.Messages.Deliver.{IsReady}
use usbsec.Messages.Receive.{receive_count_lem}
use usbsec.Messages.Send.{frames, AreFreed, send_count_lem}
use usbsec.Messages.Query.{receive_until_query_lem}
use usbsec.Messages.SendAll.{send_all_lem}
use usbsec.Messages.Exchange.{exchange}
use usbsec.Tests.Fixtures.{list_sdk, list-IsFifo, start, static_memory}

abbrev contents : List Content
contents = record { flag = 0x102; bytes = 1 ∷ 2 ∷ [] } ∷ record { flag = 0x1; bytes = 7 ∷ [] } ∷ []

-- Two frames, an idle byte in front of each.
abbrev second_frame : List ℕ
second_frame = 0 ∷ frame (7 ∷ []) 0x1

abbrev listening : Node
listening = record start {
  spi = record {
    flag = 0;
    dummy = 0xff;
    wire_in = 0 ∷ frame (1 ∷ 2 ∷ []) 0x102 ++ second_frame;
    wire_out = [];
  };
}

receive_count_lem_example :
    (n : Node) × (receive_count 2 listening ≡ (ok tt, n))
    × (n.spi.wire_in ≡ [])
    × StandFor n.mem n.next_block (list_sdk.items n.rx) contents
    × (length (list_sdk.items n.rx) ≡ 2)
    × IsReady master n
receive_count_lem_example =
    receive_count_lem list-IsFifo (λ mem k. refl) contents listening [] []
      (refl, omega arith, (replicate 1025 0, refl, refl))
      (omega arith, omega arith, (omega arith, omega arith, tt))
      (0 ∷ [], second_frame, (omega arith, tt), refl, (0 ∷ [], [], (omega arith, tt), refl, refl))
      (omega arith) tt

-- a slave whose queue holds the two messages, in blocks 16 and 17
abbrev queued : List Message
queued =
    record { e_flag = 0x102; payload_length = 2; payload = record { block = 16; off = 0 } }
    ∷ record { e_flag = 0x1; payload_length = 1; payload = record { block = 17; off = 0 } }
    ∷ []

abbrev sender : Node
sender = record start {
  role = slave;
  next_block = 18;
  mem = λ b.
      if b == 16 then some (1 ∷ 2 ∷ []) else if b == 17 then some (7 ∷ []) else static_memory b;
  tx = queued;
}

-- a master at the other end of the wire
abbrev receiver : Node
receiver = record start {
  spi = record { flag = 0; dummy = 0xff; wire_in = frames contents; wire_out = [] };
}

exchange_example :
    (s n : Node) × (send_count 2 sender ≡ (ok tt, s))
    × (receive_count 2 receiver ≡ (ok tt, n))
    × (s.tx ≡ [])
    × AreFreed s.mem queued
    × StandFor n.mem n.next_block (list_sdk.items n.rx) contents
    × (n.spi.wire_in ≡ [])
unfolding send_count queue_remove_blocking spi_send_blocking load fetch free
exchange_example =
    exchange list-IsFifo (λ mem k. refl) sender receiver contents [] []
      (
        refl,
        refl,
        (
          (refl, refl, refl, refl, omega arith, omega arith),
          ((refl, refl, refl, refl, omega arith, omega arith), tt),
        ),
        (((λ e. absurd (omega arith)), tt), (tt, tt)),
      )
      (refl, omega arith, (replicate 1025 0, refl, refl))
      (omega arith, omega arith, (omega arith, omega arith, tt)) tt (omega arith) refl

send_count_lem_example :
    (n : Node) × (send_count 2 sender ≡ (ok tt, n))
    × (n.spi.wire_out ≡ frames contents)
    × (n.tx ≡ [])
    × AreFreed n.mem queued
    × ((k : ℕ) → NotAmong k queued → n.mem k ≡ sender.mem k)
send_count_lem_example =
    send_count_lem list-IsFifo queued contents sender refl refl
      (
        (refl, refl, refl, refl, omega arith, omega arith),
        ((refl, refl, refl, refl, omega arith, omega arith), tt),
      )
      (((λ e. absurd (omega arith)), tt), (tt, tt))

-- a slave to which the two messages come, and then the query
abbrev asked : Node
asked = record start {
  role = slave;
  spi = record {
    flag = 0;
    dummy = 0xff;
    wire_in = 0 ∷ frame (1 ∷ 2 ∷ []) 0x102 ++ (second_frame ++ frame [] 0x10);
    wire_out = [];
  };
}

receive_until_query_lem_example :
    (n : Node) × (receive_until_query 21 asked ≡ (ok tt, n))
    × (n.spi.wire_in ≡ [])
    × StandFor n.mem n.next_block (list_sdk.items n.rx) contents
receive_until_query_lem_example =
    receive_until_query_lem list-IsFifo (λ mem k. refl) contents [] asked []
      (refl, omega arith, (replicate 1025 0, refl, refl))
      (omega arith, omega arith, (omega arith, omega arith, tt)) (refl, (refl, tt))
      (
        0 ∷ [],
        second_frame ++ frame [] 0x10,
        (omega arith, tt),
        refl,
        (0 ∷ [], frame [] 0x10, (omega arith, tt), refl, ([], [], tt, refl, refl)),
      )
      (omega arith) tt

-- a master with the two messages; the slave waits
abbrev filled : Node
filled = record sender { role = master }

send_all_lem_example :
    (n : Node) × (send_all 3 filled ≡ (ok tt, n))
    × (n.spi.wire_out ≡ frames contents)
    × (n.tx ≡ [])
    × AreFreed n.mem queued
    × ((k : ℕ) → NotAmong k queued → n.mem k ≡ filled.mem k)
send_all_lem_example =
    send_all_lem list-IsFifo 3 queued contents filled (omega arith) refl refl refl refl
      (
        (refl, refl, refl, refl, omega arith, omega arith),
        ((refl, refl, refl, refl, omega arith, omega arith), tt),
      )
      (((λ e. absurd (omega arith)), tt), (tt, tt))
