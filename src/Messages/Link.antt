-- ===== src/Messages/Link.antt =====
-- The link as its users see it: what the two microcontrollers do with it, one call after another,
-- and what the calls are to mean.
pub mod Ends
pub mod Refine
use usbsec.Base.{
  ℕ, ◌+◌, ◌≤◌, ◌<◌, ◌≡◌, false, Option, none, some, List, [], ◌∷◌, ◌++◌, length, drop, has,
}
use usbsec.Node.Sdk.{Sdk, Message, spi_queue_max_capacity}
use usbsec.Node.State.{Node}
use usbsec.Node.Monad.{M, Void, ok, pure, ◌>>=◌, ◌>>◌}
use usbsec.Node.Memory.{local_bytes, free}
use usbsec.Messages.{enqueue_spi_message, dequeue_spi_message, sync}
use usbsec.Messages.MsgType.{slave_data_query}
use usbsec.Messages.Contents.{Content}

-- The messages of the two: queued by the master and by the slave, and received by them.
pub record Mail : Type 0 where
  pub asks : List Content
  pub answers : List Content
  pub at_slave : List Content
  pub at_master : List Content

-- The master or the slave queues a message, or takes one that it has received; a round of `sync`.
pub data Act : Type 0 where
  ask answer : Content → Act
  slave_takes master_takes round : Act

-- what an act is to do
unfoldable pub meant : Act → Mail → Mail
meant (ask c) v = record v { asks = v.asks ++ (c ∷ []) }
meant (answer c) v = record v { answers = v.answers ++ (c ∷ []) }
meant slave_takes v = record v { at_slave = drop 1 v.at_slave }
meant master_takes v = record v { at_master = drop 1 v.at_master }
meant round v = record {
  asks = [];
  answers = [];
  at_slave = v.at_slave ++ v.asks;
  at_master = v.at_master ++ v.answers;
}

unfoldable pub all_meant : List Act → Mail → Mail
unfolding meant
all_meant [] v = v
all_meant (a ∷ acts) v = all_meant acts (meant a v)

-- When an act does not wait: there is room in the queues that it fills. A message fits 16 bits and
-- the receiver's `bugger`, and one of the master is no query.
abbrev pub IsFit : Content → Type 0
IsFit c = (length c.bytes ≤ 1025) × (c.flag < 65536)

abbrev pub IsAllowed : Act → Mail → Type 0
IsAllowed (ask c) v =
    IsFit c × (has c.flag slave_data_query ≡ false) × (length v.asks < spi_queue_max_capacity)
IsAllowed (answer c) v = IsFit c × (length v.answers < spi_queue_max_capacity)
IsAllowed slave_takes v = Unit
IsAllowed master_takes v = Unit
IsAllowed round v =
    (length v.at_slave + length v.asks ≤ spi_queue_max_capacity)
    × (length v.at_master + length v.answers ≤ spi_queue_max_capacity)

abbrev pub AreAllowed : List Act → Mail → Type 0
AreAllowed [] v = Unit
AreAllowed (a ∷ acts) v = IsAllowed a v × AreAllowed acts (meant a v)

module _ ⦃sdk : Sdk⦄ where
  -- a message from local variables, as the handlers queue them
  unfoldable pub post : Content → M Void
  unfolding local_bytes enqueue_spi_message
  post c = do
    p ← local_bytes c.bytes
    enqueue_spi_message (record { e_flag = c.flag; payload_length = length c.bytes; payload = p })

  -- a message is taken and, when it is done with, freed, as in the loops of the handlers
  unfoldable pub discard : Option Message → M Void
  unfolding free
  discard none = pure tt
  discard (some m) = free m.payload

  unfoldable pub take_message : M Void
  unfolding dequeue_spi_message discard
  take_message = do message ← dequeue_spi_message; discard message

  -- a node at the beginning of a round, with the bytes that the other side is going to send
  abbrev pub wired : List ℕ → Node → Node
  wired w n = record n { spi = record (n.spi) { wire_in = w; wire_out = [] } }

  -- The calls of an act return, and in a round each side reads exactly what the other sends.
  pub data Step : Act → Node → Node → Node → Node → Type 0 where
    asked : {c : Content} {m m' s : Node} → post c m ≡ (ok tt, m') → Step (ask c) m s m' s
    answered : {c : Content} {m s s' : Node} → post c s ≡ (ok tt, s') → Step (answer c) m s m s'
    slave_took : {m s s' : Node} → take_message s ≡ (ok tt, s') → Step slave_takes m s m s'
    master_took : {m m' s : Node} → take_message m ≡ (ok tt, m') → Step master_takes m s m' s
    synced :
        {m m' s s' : Node} (to_master to_slave : List ℕ)
        → sync (wired to_master m) ≡ (ok tt, m')
        → sync (wired to_slave s) ≡ (ok tt, s')
        → m'.spi.wire_out ≡ to_slave
        → s'.spi.wire_out ≡ to_master
        → m'.spi.wire_in ≡ []
        → s'.spi.wire_in ≡ []
        → Step round m s m' s'

  pub data Steps : List Act → Node → Node → Node → Node → Type 0 where
    done : {m s : Node} → Steps [] m s m s
    then_do :
        {a : Act} {acts : List Act} {m m1 m2 s s1 s2 : Node}
        → Step a m s m1 s1
        → Steps acts m1 s1 m2 s2
        → Steps (a ∷ acts) m s m2 s2
