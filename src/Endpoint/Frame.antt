-- ===== src/Endpoint/Frame.antt =====
-- The parts of a node that memory, registers, endpoints and pins have nothing to do with are left
-- alone by every action on those.
use usbsec.Base.{ℕ, Bool, List, true, false, arith, ◌≡◌, Option, none, some, refl}
use usbsec.Node.Sdk.{Pointer, Store}
use usbsec.Node.State.{Node, HwEndpoint, UsbState, Event}
use usbsec.Node.Monad.{Result, Void, ok, stop, Stop, runtime_assert, emit, modify, error}
use usbsec.Node.Keeps.{Keeps, Keeps-same, Keeps-gets, Keeps-role, Keeps-bind, Keeps-pure, composed}
use usbsec.Endpoint.{
  update, hw_endpoint_buffer_control_set_value32, hw_endpoint_buffer_control_update32,
  prepare_ep_buffer, start_next_buffer_master, start_next_buffer_slave,
  hw_endpoint_start_next_buffer, hw_endpoint_xfer_start, hw_endpoint_reset_transfer_new,
}
use usbsec.Regs.{read_reg, write_reg}
use usbsec.DirectionCtrl.{set_dir}
use usbsec.Node.Memory.{
  poke, set_block, load, store, memcpy, load_byte, load_u16, free, local_bytes,
}

pub record IsApart {S : Type 0} (view : Node → S) : Type 0 where
  pub mem : (n : Node) (m : Store) → view (record n { mem = m }) ≡ view n
  pub usb : (n : Node) (u : UsbState) → view (record n { usb = u }) ≡ view n
  pub regs : (n : Node) (r : ℕ → ℕ) → view (record n { regs = r }) ≡ view n
  pub events : (n : Node) (es : List Event) → view (record n { events = es }) ≡ view n
  pub gpio_inited : (n : Node) (b : Bool) → view (record n { gpio_inited = b }) ≡ view n

stored :
    {S : Type 0} {view : Node → S}
    → IsApart view
    → (n : Node) (result : Option Store)
    → view
        (elim result as (λ x. Result Void × Node) [
          | none ↦ (stop Stop.fault, n)
          | some mem ↦ (ok tt, record n { mem = mem })
        ]).1
      ≡ view n
stored apart n none = refl
stored apart n (some m) = apart.mem n m

module _ {S : Type 0} {view : Node → S} {P : S → Type 0} (apart : IsApart view) where
  pub load-Keeps : (p : Pointer) (len : ℕ) → Keeps view P (load p len)
  unfolding load
  load-Keeps p len = Keeps-same _ (λ n. ground arith)

  pub store-Keeps : (p : Pointer) (bs : List ℕ) → Keeps view P (store p bs)
  unfolding store
  store-Keeps p bs = Keeps-same _ (λ n. stored apart n (poke n.mem p bs))

  pub memcpy-Keeps : (to from : Pointer) (len : ℕ) → Keeps view P (memcpy to from len)
  unfolding memcpy
  memcpy-Keeps to from len = search (composed, load-Keeps, store-Keeps)

  pub load_byte-Keeps : (p : Pointer) → Keeps view P (load_byte p)
  unfolding load_byte
  load_byte-Keeps p = search (composed, load-Keeps)

  pub load_u16-Keeps : (p : Pointer) → Keeps view P (load_u16 p)
  unfolding load_u16
  load_u16-Keeps p = search (composed, load-Keeps)

  pub runtime_assert-Keeps : (b : Bool) → Keeps view P (runtime_assert b)
  unfolding runtime_assert
  runtime_assert-Keeps true = record { after = λ n h. h }
  runtime_assert-Keeps false = Keeps-same _ (λ n. apart.events n _)

  pub error-Keeps : {A : Type 0} → Keeps view P (error {A = A})
  unfolding error
  error-Keeps = Keeps-same _ (λ n. apart.events n _)

  pub local_bytes-Keeps : (bs : List ℕ) → Keeps view P (local_bytes bs)
  unfolding local_bytes
  local_bytes-Keeps bs = Keeps-same _ (λ n. apart.mem n _)

  pub free-Keeps : (p : Pointer) → Keeps view P (free p)
  unfolding free
  free-Keeps p = Keeps-same _ (λ n. ground (arith, apart.mem n (set_block n.mem p.block none)))

  pub emit-Keeps : (e : Event) → Keeps view P (emit e)
  emit-Keeps e = Keeps-same _ (λ n. apart.events n _)

  pub update-Keeps : (e : ℕ) (f : HwEndpoint → HwEndpoint) → Keeps view P (update e f)
  update-Keeps e f = Keeps-same _ (λ n. apart.usb n _)

  pub write_reg-Keeps : (r v : ℕ) → Keeps view P (write_reg r v)
  write_reg-Keeps r v = Keeps-same _ (λ n. apart.regs n _)

  pub read_reg-Keeps : (r : ℕ) → Keeps view P (read_reg r)
  read_reg-Keeps r = record { after = λ n h. h }

  inited-Keeps : Keeps view P (modify (λ n. record n { gpio_inited = true }))
  inited-Keeps = Keeps-same _ (λ n. apart.gpio_inited n true)

  pub set_dir-Keeps : (b : Bool) → Keeps view P (set_dir b)
  unfolding set_dir
  set_dir-Keeps b = search (composed, emit-Keeps, inited-Keeps) depth 20

  pub ruleset leaves = (
    composed, load-Keeps, store-Keeps, memcpy-Keeps, load_byte-Keeps, load_u16-Keeps,
    runtime_assert-Keeps, update-Keeps, write_reg-Keeps, set_dir-Keeps, read_reg-Keeps, emit-Keeps,
  )

  pub set_value32-Keeps : (e v : ℕ) → Keeps view P (hw_endpoint_buffer_control_set_value32 e v)
  unfolding hw_endpoint_buffer_control_set_value32 hw_endpoint_buffer_control_update32
  set_value32-Keeps e v = search (leaves) depth 20

  pub prepare_ep_buffer-Keeps : (e b : ℕ) → Keeps view P (prepare_ep_buffer e b)
  unfolding prepare_ep_buffer
  prepare_ep_buffer-Keeps e b = search (leaves) depth 20

  pub start_next_buffer_master-Keeps : (e : ℕ) → Keeps view P (start_next_buffer_master e)
  unfolding start_next_buffer_master
  start_next_buffer_master-Keeps e =
      search (leaves, prepare_ep_buffer-Keeps, set_value32-Keeps) depth 20

  pub start_next_buffer_slave-Keeps : (e : ℕ) → Keeps view P (start_next_buffer_slave e)
  unfolding start_next_buffer_slave
  start_next_buffer_slave-Keeps e = search (leaves, set_value32-Keeps) depth 20

  pub hw_endpoint_start_next_buffer-Keeps : (e : ℕ) → Keeps view P (hw_endpoint_start_next_buffer e)
  unfolding hw_endpoint_start_next_buffer
  hw_endpoint_start_next_buffer-Keeps e =
      Keeps-role _ _ (start_next_buffer_master-Keeps e) (start_next_buffer_slave-Keeps e)

  pub hw_endpoint_xfer_start-Keeps :
      (e : ℕ) (p : Pointer) (len : ℕ) → Keeps view P (hw_endpoint_xfer_start e p len)
  unfolding hw_endpoint_xfer_start hw_endpoint_reset_transfer_new
  hw_endpoint_xfer_start-Keeps e p len =
      search (leaves, hw_endpoint_start_next_buffer-Keeps) depth 20
