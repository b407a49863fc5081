-- ===== src/Tests/Fixtures.antt =====
-- An SDK whose queues are lists, and a node to start from.
use usbsec.Base.{
  ℕ, ◌<◌, ◌≡◌, refl, true, false, Option, none, some, List, [], ◌∷◌, ◌++◌, length, replicate, ◌==◌,
  ltb, if◌then◌else◌, arith,
}
use usbsec.Node.Sdk.{Sdk, IsFifo, Queue, Message, Pointer, null, Store, spi_queue_max_capacity}
use usbsec.Node.State.{Node, master, illegal, reading_response}
use usbsec.DcdIrq.{cleared}

abbrev list_add : Queue → Message → Option Queue
list_add q m = if ltb (length q) spi_queue_max_capacity then some (q ++ (m ∷ [])) else none

abbrev list_remove : Queue → Option (Message × Queue)
list_remove [] = none
list_remove (m ∷ ms) = some (m, ms)

instance abbrev pub list_sdk : Sdk
list_sdk = record {
  items = λ q. q;
  queue_new = [];
  queue_add = list_add;
  queue_try_remove = list_remove;
  queue_is_empty = λ q. length q == 0;
  queue_level = λ q. length q;
  malloc_fits = λ mem n. true;
}

list_add-full : (q : Queue) (m : Message) → length q ≡ spi_queue_max_capacity → list_add q m ≡ none
list_add-full q m h = ground arith

list_add-room :
    (q : Queue) (m : Message)
    → length q < spi_queue_max_capacity
    → (q' : Queue) × (list_add q m ≡ some q') × (q' ≡ q ++ (m ∷ []))
list_add-room q m h = (q ++ (m ∷ []), ground arith, refl)

list_remove-empty : (q : Queue) → q ≡ [] → list_remove q ≡ none
list_remove-empty [] h = refl
list_remove-empty (m ∷ q) h = cc

list_remove-first :
    (q : Queue) (m : Message) (ms : List Message)
    → q ≡ m ∷ ms
    → (q' : Queue) × (list_remove q ≡ some (m, q')) × (q' ≡ ms)
list_remove-first q m ms h = (ms, ground arith, refl)

pub list-IsFifo : IsFifo list_sdk
list-IsFifo = record {
  items-new = refl;
  queue_add-full = list_add-full;
  queue_add-room = list_add-room;
  queue_try_remove-empty = list_remove-empty;
  queue_try_remove-first = list_remove-first;
  queue_is_empty_lem = λ q. refl;
  queue_level_lem = λ q. refl;
}

-- The static arrays, all zero, and nothing on the heap.
abbrev pub static_memory : Store
static_memory b =
    if b == 1
    then some (replicate 1025 0)
    else if b == 2
    then some (replicate 1024 0)
    else if b == 3
    then some (replicate 1024 0)
    else if b == 4
    then some (replicate 1000 0)
    else if b == 5
    then some (replicate 64 0)
    else if b == 6
    then some (replicate 8 0)
    else if b == 7
    then some (replicate 8 0)
    else if b == 8
    then some (replicate 4096 0)
    else none

abbrev pub start : Node
start = record {
  role = master;
  mem = static_memory;
  next_block = 16;
  pin = λ p. true;
  regs = λ r. 0;
  events = [];
  tx = [];
  rx = [];
  gpio_inited = false;
  spi = record { flag = 0; dummy = 0xff; wire_in = []; wire_out = [] };
  usb = record { endpoint = λ e. cleared; active_ep = 32; next_buffer_ptr = null };
  drivers = record {
    driver = λ i. illegal;
    itf_copy = λ i. record { interface_class = 0; interface_protocol = 0 };
    permit_0x81 = false;
    count_0x81 = 0;
    other_edpt = 0;
    max_packet_size = 0;
  };
  aggregator = record { mps = 64; len = 0 };
  device = record { max_packet_size = 64; setup_response_dir = reading_response };
  host = record { level = 0; dev_addr = 0; debug_lock = false };
}

-- A node whose heap has one block, 15, with the bytes given.
abbrev pub holding : List ℕ → Node
holding bytes = record start { mem = λ b. if b == 15 then some bytes else static_memory b }

abbrev pub held : Pointer
held = record { block = 15; off = 0 }
