-- ===== src/Messages/Contents.antt =====
-- What the messages of pico_firmware/src/lib/messages/messages.h stand for, on the wire of
-- spi_data.c and in a queue.
use usbsec.Base.{
  ℕ, ◌+◌, ◌≤◌, ◌<◌, ◌≡◌, ◌≢◌, refl, List, [], ◌∷◌, ◌++◌, some, length, arith, subst, sym, ◌∙◌,
}
use usbsec.Node.Sdk.{Message, Store}
use usbsec.Node.Memory.{first_heap_block}
use usbsec.Spi.Frame.{frame, IsIdle}

-- What is sent in one message.
pub record Content : Type 0 where
  pub flag : ℕ
  pub bytes : List ℕ

-- A wire that carries messages, idle bytes in front of each of them, and then `rest`.
abbrev pub Carries : List Content → List ℕ → List ℕ → Type 0
Carries [] rest wire = wire ≡ rest
Carries (c ∷ cs) rest wire =
    (idle : List ℕ) × (more : List ℕ) × IsIdle idle
    × (wire ≡ idle ++ (frame c.bytes c.flag ++ more))
    × Carries cs rest more

-- A queued message stands for the content: it has its flag and length, and points to a block of
-- just its bytes, neither a static block nor one that is not allocated yet.
abbrev pub StandsFor : Store → ℕ → Message → Content → Type 0
StandsFor mem next m c =
    (m.e_flag ≡ c.flag)
    × (m.payload_length ≡ length c.bytes)
    × (m.payload.off ≡ 0)
    × (mem m.payload.block ≡ some c.bytes)
    × (first_heap_block ≤ m.payload.block)
    × (m.payload.block < next)

abbrev pub StandFor : Store → ℕ → List Message → List Content → Type 0
StandFor mem next [] [] = Unit
StandFor mem next (m ∷ ms) (c ∷ cs) = StandsFor mem next m c × StandFor mem next ms cs
StandFor mem next _ _ = ⊥

StandFor-append :
    (mem : Store) (next : ℕ) (ms : List Message) (cs : List Content) (m : Message) (c : Content)
    → StandFor mem next ms cs
    → StandsFor mem next m c
    → StandFor mem next (ms ++ (m ∷ [])) (cs ++ (c ∷ []))
StandFor-append mem next [] [] m c h one = (one, tt)
StandFor-append mem next [] (y ∷ cs) m c h one = elim h [ ]
StandFor-append mem next (x ∷ ms) [] m c h one = elim h [ ]
StandFor-append mem next (x ∷ ms) (y ∷ cs) m c (h, hs) one =
    (h, StandFor-append mem next ms cs m c hs one)

-- no block is the payload of two messages
abbrev pub NotAmong : ℕ → List Message → Type 0
NotAmong b [] = Unit
NotAmong b (m ∷ ms) = (m.payload.block ≢ b) × NotAmong b ms

abbrev pub AreApart : List Message → Type 0
AreApart [] = Unit
AreApart (m ∷ ms) = NotAmong m.payload.block ms × AreApart ms

-- no message of the first list has a payload of the second
abbrev pub AreDisjoint : List Message → List Message → Type 0
AreDisjoint [] ts = Unit
AreDisjoint (m ∷ ms) ts = NotAmong m.payload.block ts × AreDisjoint ms ts

abbrev pub AreBelow : ℕ → List Message → Type 0
AreBelow next [] = Unit
AreBelow next (m ∷ ms) = (m.payload.block < next) × AreBelow next ms

pub AreBelow-suc : (next : ℕ) (ms : List Message) → AreBelow next ms → AreBelow (next + 1) ms
AreBelow-suc next [] h = tt
AreBelow-suc next (m ∷ ms) (h, hs) = (omega arith, AreBelow-suc next ms hs)

-- a queue that stands for one message
pub StandFor-one :
    (mem : Store) (next : ℕ) (ms : List Message) (c : Content)
    → StandFor mem next ms (c ∷ [])
    → (m : Message) × (ms ≡ m ∷ []) × StandsFor mem next m c
StandFor-one mem next [] c h = elim h [ ]
StandFor-one mem next (m ∷ []) c (h, hs) = (m, refl, h)
StandFor-one mem next (m ∷ k ∷ ms) c (h, hs) = elim hs [ ]

pub StandFor-AreBelow :
    (mem : Store) (next : ℕ) (ms : List Message) (cs : List Content)
    → StandFor mem next ms cs
    → AreBelow next ms
StandFor-AreBelow mem next [] [] h = tt
StandFor-AreBelow mem next [] (c ∷ cs) h = elim h [ ]
StandFor-AreBelow mem next (m ∷ ms) [] h = elim h [ ]
StandFor-AreBelow mem next (m ∷ ms) (c ∷ cs) ((f, l, z, r, lo, hi), hs) =
    (hi, StandFor-AreBelow mem next ms cs hs)

-- a new block is no payload, nor is a static one
pub next-NotAmong : (next : ℕ) (ms : List Message) → AreBelow next ms → NotAmong next ms
next-NotAmong next [] h = tt
next-NotAmong next (m ∷ ms) (h, hs) = (omega arith, next-NotAmong next ms hs)

pub static-NotAmong :
    (mem : Store) (next b : ℕ) (ms : List Message) (cs : List Content)
    → b < first_heap_block
    → StandFor mem next ms cs
    → NotAmong b ms
static-NotAmong mem next b [] [] low h = tt
static-NotAmong mem next b [] (c ∷ cs) low h = elim h [ ]
static-NotAmong mem next b (m ∷ ms) [] low h = elim h [ ]
static-NotAmong mem next b (m ∷ ms) (c ∷ cs) low ((f, l, z, r, lo, hi), hs) =
    (omega arith, static-NotAmong mem next b ms cs low hs)

NotAmong-append :
    (b : ℕ) (ms : List Message) (m : Message)
    → NotAmong b ms
    → m.payload.block ≢ b
    → NotAmong b (ms ++ (m ∷ []))
NotAmong-append b [] m h ne = (ne, tt)
NotAmong-append b (k ∷ ms) m (h, hs) ne = (h, NotAmong-append b ms m hs ne)

-- a payload that is newer than those of `ms`
pub AreApart-append :
    (ms : List Message) (m : Message)
    → AreBelow m.payload.block ms
    → AreApart ms
    → AreApart (ms ++ (m ∷ []))
AreApart-append [] m below h = (tt, tt)
AreApart-append (k ∷ ms) m (lt, below) (h, hs) =
    (NotAmong-append k.payload.block ms m h (omega arith), AreApart-append ms m below hs)

pub AreDisjoint-new :
    (rs ms : List Message) (m : Message)
    → AreBelow m.payload.block rs
    → AreDisjoint rs ms
    → AreDisjoint rs (ms ++ (m ∷ []))
AreDisjoint-new [] ms m below h = tt
AreDisjoint-new (r ∷ rs) ms m (lt, below) (h, hs) =
    (NotAmong-append r.payload.block ms m h (omega arith), AreDisjoint-new rs ms m below hs)

pub AreDisjoint-append :
    (ms ts : List Message) (m : Message)
    → AreDisjoint ms ts
    → NotAmong m.payload.block ts
    → AreDisjoint (ms ++ (m ∷ [])) ts
AreDisjoint-append [] ts m h new = (new, tt)
AreDisjoint-append (k ∷ ms) ts m (h, hs) new = (h, AreDisjoint-append ms ts m hs new)

-- what messages stand for when only payloads of others change, or only static blocks
pub StandFor-disjoint :
    (mem mem' : Store) (next : ℕ) (ms ts : List Message) (cs : List Content)
    → ((k : ℕ) → NotAmong k ts → mem' k ≡ mem k)
    → AreDisjoint ms ts
    → StandFor mem next ms cs
    → StandFor mem' next ms cs
StandFor-disjoint mem mem' next [] ts [] kept apart h = tt
StandFor-disjoint mem mem' next [] ts (c ∷ cs) kept apart h = elim h [ ]
StandFor-disjoint mem mem' next (m ∷ ms) ts [] kept apart h = elim h [ ]
StandFor-disjoint mem mem' next (m ∷ ms) ts (c ∷ cs) kept (ne, apart) ((f, l, z, r, lo, hi), hs) = (
  (f, l, z, kept m.payload.block ne ∙ r, lo, hi),
  StandFor-disjoint mem mem' next ms ts cs kept apart hs,
)

pub StandFor-heap :
    (mem mem' : Store) (next next' : ℕ) (ms : List Message) (cs : List Content)
    → ((k : ℕ) → first_heap_block ≤ k → k < next → mem' k ≡ mem k)
    → next ≤ next'
    → StandFor mem next ms cs
    → StandFor mem' next' ms cs
StandFor-heap mem mem' next next' [] [] same le h = tt
StandFor-heap mem mem' next next' [] (c ∷ cs) same le h = elim h [ ]
StandFor-heap mem mem' next next' (m ∷ ms) [] same le h = elim h [ ]
StandFor-heap mem mem' next next' (m ∷ ms) (c ∷ cs) same le ((f, l, z, r, lo, hi), hs) = (
  (f, l, z, same m.payload.block lo hi ∙ r, lo, omega arith),
  StandFor-heap mem mem' next next' ms cs same le hs,
)

pub StandFor-next :
    (mem mem' : Store) (next next' : ℕ) (ms ms' : List Message) (m : Message) (cs : List Content)
    (c : Content)
    → ms' ≡ ms ++ (m ∷ [])
    → StandsFor mem' next' m c
    → next' ≡ next + 1
    → ((k : ℕ) → first_heap_block ≤ k → k < next → mem' k ≡ mem k)
    → StandFor mem next ms cs
    → StandFor mem' next' ms' (cs ++ (c ∷ []))
StandFor-next mem mem' next next' ms ms' m cs c grown new later same h =
    subst (λ all. StandFor mem' next' all (cs ++ (c ∷ []))) (sym grown)
      (StandFor-append mem' next' ms cs m c kept new)
  where
    kept : StandFor mem' next' ms cs
    kept =
        subst (λ k. StandFor mem' k ms cs) (sym later)
          (StandFor-heap mem mem' next (next + 1) ms cs same (omega arith) h)

-- what a message may be: it fits `bugger`, and its flag 16 bits
abbrev pub Fit : List Content → Type 0
Fit [] = Unit
Fit (c ∷ cs) = (length c.bytes ≤ 1025) × (c.flag < 65536) × Fit cs
