-- ===== src/Messages/FakeSpi.antt =====
-- `fake_spi` and `fake_spi_bkp` of pico_firmware/src/lib/messages/messages.c: the messages of a
-- keyboard's enumeration, queued as if they came from the master. One message struct is used for
-- all of them, so the fields that are not set again keep their values, and `payload` is the last
-- copy.
use usbsec.Base.{ℕ, List, [], ◌∷◌}
use usbsec.Node.Sdk.{Sdk, Message, null}
use usbsec.Node.Monad.{M, Void, pure, ◌>>=◌, ◌>>◌}
use usbsec.Node.Memory.{local_bytes}
use usbsec.Messages.{rx, queue_add_with_copy}
use usbsec.Messages.MsgType.{edpt_open}

module _ ⦃sdk : Sdk⦄ where
  abbrev nothing : ℕ → Message
  nothing flag = record { e_flag = flag; payload_length = 0; payload = null }

  -- a local array is handed to the queue, with a flag and a length of its own
  unfoldable queue_local : List ℕ → ℕ → ℕ → M Message
  unfolding local_bytes queue_add_with_copy
  queue_local bytes len flag = do
    p ← local_bytes bytes
    queue_add_with_copy rx (record { e_flag = flag; payload_length = len; payload = p })

  -- only `payload` is set
  unfoldable queue_next : Message → List ℕ → M Message
  unfolding queue_local
  queue_next msg bytes = queue_local bytes msg.payload_length msg.e_flag

  unfoldable pub fake_spi : M Void
  unfolding queue_add_with_copy queue_local queue_next
  fake_spi = do
    queue_add_with_copy rx (nothing 0x4)
    queue_local (0x80 ∷ 0x06 ∷ 0x00 ∷ 0x01 ∷ 0x00 ∷ 0x00 ∷ 0x08 ∷ 0x00 ∷ []) 8 0x2
    msg ← queue_add_with_copy rx (nothing 0x4)
    queue_add_with_copy rx (record msg { e_flag = 0x20 })
    queue_local (8 ∷ []) 1 0x40
    msg ← queue_local (0x80 ∷ 0x06 ∷ 0x00 ∷ 0x01 ∷ 0x00 ∷ 0x00 ∷ 0x12 ∷ 0x00 ∷ []) 8 0x2
    msg ← queue_next msg (0x80 ∷ 0x06 ∷ 0x00 ∷ 0x02 ∷ 0x00 ∷ 0x00 ∷ 0x09 ∷ 0x00 ∷ [])
    queue_next msg (0x80 ∷ 0x06 ∷ 0x00 ∷ 0x02 ∷ 0x00 ∷ 0x00 ∷ 0x3b ∷ 0x00 ∷ [])
    msg ← queue_local (0x07 ∷ 0x05 ∷ 0x81 ∷ 0x03 ∷ 0x08 ∷ 0x00 ∷ 0x01 ∷ []) 7 edpt_open
    queue_next msg (0x07 ∷ 0x05 ∷ 0x82 ∷ 0x03 ∷ 0x08 ∷ 0x00 ∷ 0x01 ∷ [])
    msg ← queue_local (0x00 ∷ 0x09 ∷ 0x01 ∷ 0x00 ∷ 0x00 ∷ 0x00 ∷ 0x00 ∷ 0x00 ∷ []) 8 0x2
    msg ← queue_next msg (0x21 ∷ 0x0a ∷ 0x00 ∷ 0x00 ∷ 0x00 ∷ 0x00 ∷ 0x00 ∷ 0x00 ∷ [])
    msg ← queue_next msg (0x21 ∷ 0x0b ∷ 0x00 ∷ 0x00 ∷ 0x00 ∷ 0x00 ∷ 0x00 ∷ 0x00 ∷ [])
    msg ← queue_next msg (0x81 ∷ 0x06 ∷ 0x00 ∷ 0x22 ∷ 0x00 ∷ 0x00 ∷ 0x47 ∷ 0x00 ∷ [])
    queue_next msg (0x21 ∷ 0x0a ∷ 0x00 ∷ 0x00 ∷ 0x01 ∷ 0x00 ∷ 0x00 ∷ 0x00 ∷ [])
    queue_local (0 ∷ 0 ∷ 0 ∷ 0 ∷ 0 ∷ 0 ∷ 0 ∷ 0 ∷ 0x81 ∷ []) 9 0x1
    pure tt

  unfoldable pub fake_spi_bkp : M Void
  unfolding queue_add_with_copy queue_local queue_next
  fake_spi_bkp = do
    queue_add_with_copy rx (nothing 0x4)
    queue_local (0x80 ∷ 0x06 ∷ 0x00 ∷ 0x01 ∷ 0x00 ∷ 0x00 ∷ 0x40 ∷ 0x00 ∷ []) 8 0x2
    queue_add_with_copy rx (nothing 0x4)
    queue_local (8 ∷ []) 1 0x40
    msg ← queue_local (0x80 ∷ 0x06 ∷ 0x00 ∷ 0x01 ∷ 0x00 ∷ 0x00 ∷ 0x12 ∷ 0x00 ∷ []) 8 0x2
    msg ← queue_next msg (0x80 ∷ 0x06 ∷ 0x00 ∷ 0x02 ∷ 0x00 ∷ 0x00 ∷ 0x09 ∷ 0x00 ∷ [])
    queue_next msg (0x80 ∷ 0x06 ∷ 0x00 ∷ 0x02 ∷ 0x00 ∷ 0x00 ∷ 0x3b ∷ 0x00 ∷ [])
    msg ← queue_local (0x07 ∷ 0x05 ∷ 0x81 ∷ 0x03 ∷ 0x08 ∷ 0x00 ∷ 0x01 ∷ []) 7 0x8
    queue_next msg (0x07 ∷ 0x05 ∷ 0x82 ∷ 0x03 ∷ 0x08 ∷ 0x00 ∷ 0x01 ∷ [])
    msg ← queue_local (0x80 ∷ 0x06 ∷ 0x00 ∷ 0x03 ∷ 0x00 ∷ 0x00 ∷ 0xff ∷ 0x00 ∷ []) 8 0x2
    msg ← queue_next msg (0x80 ∷ 0x06 ∷ 0x02 ∷ 0x03 ∷ 0x09 ∷ 0x04 ∷ 0xff ∷ 0x00 ∷ [])
    msg ← queue_next msg (0x80 ∷ 0x06 ∷ 0x01 ∷ 0x03 ∷ 0x09 ∷ 0x04 ∷ 0xff ∷ 0x00 ∷ [])
    queue_add_with_copy rx (record msg { e_flag = 0x20; payload_length = 0 })
    msg ← queue_local (0x00 ∷ 0x09 ∷ 0x01 ∷ 0x00 ∷ 0x00 ∷ 0x00 ∷ 0x00 ∷ 0x00 ∷ []) 8 0x2
    msg ← queue_next msg (0x21 ∷ 0x0a ∷ 0x00 ∷ 0x00 ∷ 0x00 ∷ 0x00 ∷ 0x00 ∷ 0x00 ∷ [])
    msg ← queue_next msg (0x81 ∷ 0x06 ∷ 0x00 ∷ 0x22 ∷ 0x00 ∷ 0x00 ∷ 0x47 ∷ 0x00 ∷ [])
    msg ← queue_next msg (0x21 ∷ 0x0a ∷ 0x00 ∷ 0x00 ∷ 0x01 ∷ 0x00 ∷ 0x00 ∷ 0x00 ∷ [])
    queue_next msg (0x81 ∷ 0x06 ∷ 0x00 ∷ 0x22 ∷ 0x01 ∷ 0x00 ∷ 0xd5 ∷ 0x00 ∷ [])
    queue_local (0x82 ∷ []) 1 0x1
    pure tt
