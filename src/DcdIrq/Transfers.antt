-- ===== src/DcdIrq/Transfers.antt =====
-- Transfers and stalls leave the buffers of the endpoints where they are.
use usbsec.Base.{
  ℕ, ◌≡◌, inl, inr, refl, sym, ◌∙◌, ap, Bool, true, false, Bool-cases, ◌==◌, Option, none, some,
  List, if◌then◌else◌, arith,
}
use usbsec.Node.Sdk.{Pointer, Store}
use usbsec.Node.State.{Node, UsbState, HwEndpoint, Event}
use usbsec.Node.Monad.{Result, Void, ok, stop, Stop, runtime_assert, emit, error}
use usbsec.Node.Keeps.{Keeps, Keeps-same, Keeps-modify, Keeps-role, composed}
use usbsec.Node.Memory.{poke, fetch, load, store, memcpy, load_byte, load_u16}
use usbsec.Regs.{write_reg}
use usbsec.Endpoint.{
  update, hw_endpoint_buffer_control_set_value32, hw_endpoint_buffer_control_update32,
  hw_endpoint_buffer_control_clear_mask32, prepare_ep_buffer, start_next_buffer_master,
  start_next_buffer_slave, hw_endpoint_start_next_buffer, hw_endpoint_xfer_start,
  hw_endpoint_xfer_partial, hw_endpoint_reset_transfer_new, sync_received, sync_ep_buffer,
  hw_endpoint_xfer_continue,
}
use usbsec.Dcd.{dcd_edpt_xfer_new, hw_endpoint_xfer, dcd_edpt_xfer_partial}
use usbsec.DcdIrq.{dcd_edpt_stall_new, dcd_edpt_clear_stall_new}
use usbsec.DcdIrq.Layout.{IsShared, same-IsShared}

abbrev pub usb : Node → UsbState
usb n = n.usb

updated :
    {A : Type 0} (e k : ℕ) (f : HwEndpoint → HwEndpoint) (n : Node) (view : HwEndpoint → A)
    → ((r : HwEndpoint) → view (f r) ≡ view r)
    → view (if k == e then f (n.usb.endpoint e) else n.usb.endpoint k) ≡ view (n.usb.endpoint k)
updated e k f n view same =
    let choose : Bool → HwEndpoint = λ b. if b then f (n.usb.endpoint e) else n.usb.endpoint k in
    elim (Bool-cases (k == e)) [
      | inl is_e ↦
          let at : k ≡ e = ground arith in
          ap (λ b. view (choose b)) is_e
          ∙ (same (n.usb.endpoint e) ∙ ap (λ j. view (n.usb.endpoint j)) (sym at))
      | inr other ↦ ap (λ b. view (choose b)) other
    ]

update-Keeps :
    (e : ℕ) (f : HwEndpoint → HwEndpoint)
    → ((r : HwEndpoint) → (f r).hw_data_buf ≡ r.hw_data_buf)
    → ((r : HwEndpoint) → (f r).w_max_packet_size ≡ r.w_max_packet_size)
    → Keeps usb IsShared (update e f)
update-Keeps e f hw size = Keeps-modify _ (λ n shared.
    same-IsShared n.usb (update e f n).1.usb refl (λ k low. updated e k f n (λ r. r.hw_data_buf) hw)
      (λ k low. updated e k f n (λ r. r.w_max_packet_size) size) shared)

stored :
    (n : Node) (result : Option Store)
    → (elim result as (λ x. Result Void × Node) [
      | none ↦ (stop Stop.fault, n)
      | some mem ↦ (ok tt, record n { mem = mem })
    ]).1.usb
      ≡ n.usb
stored n none = refl
stored n (some m) = refl

loaded :
    (n : Node) (result : Option (List ℕ))
    → (elim result as (λ x. Result (List ℕ) × Node) [
      | none ↦ (stop Stop.fault, n)
      | some bytes ↦ (ok bytes, n)
    ]).1.usb
      ≡ n.usb
loaded n none = refl
loaded n (some m) = refl

pub load-Keeps : (p : Pointer) (len : ℕ) → Keeps usb IsShared (load p len)
unfolding load
load-Keeps p len = Keeps-same _ (λ n. loaded n (fetch n.mem p len))

store-Keeps : (p : Pointer) (bs : List ℕ) → Keeps usb IsShared (store p bs)
unfolding store
store-Keeps p bs = Keeps-same _ (λ n. stored n (poke n.mem p bs))

memcpy-Keeps : (to from : Pointer) (len : ℕ) → Keeps usb IsShared (memcpy to from len)
unfolding memcpy
memcpy-Keeps to from len = search (composed, load-Keeps, store-Keeps)

runtime_assert-Keeps : (b : Bool) → Keeps usb IsShared (runtime_assert b)
unfolding runtime_assert
runtime_assert-Keeps true = record { after = λ n h. h }
runtime_assert-Keeps false = record { after = λ n h. h }

error-Keeps : {A : Type 0} → Keeps usb IsShared (error {A = A})
unfolding error
error-Keeps = record { after = λ n h. h }

emit-Keeps : (e : Event) → Keeps usb IsShared (emit e)
emit-Keeps e = record { after = λ n h. h }

write_reg-Keeps : (r v : ℕ) → Keeps usb IsShared (write_reg r v)
write_reg-Keeps r v = record { after = λ n h. h }

ruleset usb_leaves = (
  composed, load-Keeps, memcpy-Keeps, runtime_assert-Keeps, error-Keeps, emit-Keeps,
  write_reg-Keeps, update-Keeps, refl,
)

set_value32-Keeps : (e v : ℕ) → Keeps usb IsShared (hw_endpoint_buffer_control_set_value32 e v)
unfolding hw_endpoint_buffer_control_set_value32 hw_endpoint_buffer_control_update32
set_value32-Keeps e v = search (usb_leaves) depth 20

clear_mask32-Keeps : (e v : ℕ) → Keeps usb IsShared (hw_endpoint_buffer_control_clear_mask32 e v)
unfolding hw_endpoint_buffer_control_clear_mask32 hw_endpoint_buffer_control_update32
clear_mask32-Keeps e v = search (usb_leaves) depth 20

prepare_ep_buffer-Keeps : (e b : ℕ) → Keeps usb IsShared (prepare_ep_buffer e b)
unfolding prepare_ep_buffer
prepare_ep_buffer-Keeps e b = search (usb_leaves) depth 20

start_next_buffer_master-Keeps : (e : ℕ) → Keeps usb IsShared (start_next_buffer_master e)
unfolding start_next_buffer_master
start_next_buffer_master-Keeps e =
    search (usb_leaves, prepare_ep_buffer-Keeps, set_value32-Keeps) depth 20

start_next_buffer_slave-Keeps : (e : ℕ) → Keeps usb IsShared (start_next_buffer_slave e)
unfolding start_next_buffer_slave
start_next_buffer_slave-Keeps e = search (usb_leaves, set_value32-Keeps) depth 20

start_next-Keeps : (e : ℕ) → Keeps usb IsShared (hw_endpoint_start_next_buffer e)
unfolding hw_endpoint_start_next_buffer
start_next-Keeps e =
    Keeps-role _ _ (start_next_buffer_master-Keeps e) (start_next_buffer_slave-Keeps e)

pub reset_transfer-Keeps : (e : ℕ) → Keeps usb IsShared (hw_endpoint_reset_transfer_new e)
unfolding hw_endpoint_reset_transfer_new
reset_transfer-Keeps e = search (usb_leaves)

pub xfer_new-Keeps :
    (a : ℕ) (p : Pointer) (len : ℕ) → Keeps usb IsShared (dcd_edpt_xfer_new a p len)
unfolding dcd_edpt_xfer_new hw_endpoint_xfer hw_endpoint_xfer_start
xfer_new-Keeps a p len = search (usb_leaves, reset_transfer-Keeps, start_next-Keeps) depth 20

pub xfer_partial-Keeps :
    (a : ℕ) (p : Pointer) (len flag : ℕ) → Keeps usb IsShared (dcd_edpt_xfer_partial a p len flag)
unfolding dcd_edpt_xfer_partial hw_endpoint_xfer_partial
xfer_partial-Keeps a p len flag =
    search (usb_leaves, prepare_ep_buffer-Keeps, set_value32-Keeps) depth 30

sync_received-Keeps : (e len : ℕ) → Keeps usb IsShared (sync_received e len)
unfolding sync_received
sync_received-Keeps e len = search (usb_leaves) depth 20

sync_ep_buffer-Keeps : (e : ℕ) → Keeps usb IsShared (sync_ep_buffer e)
unfolding sync_ep_buffer
sync_ep_buffer-Keeps e = search (usb_leaves, sync_received-Keeps) depth 20

pub xfer_continue-Keeps : (e : ℕ) → Keeps usb IsShared (hw_endpoint_xfer_continue e)
unfolding hw_endpoint_xfer_continue
xfer_continue-Keeps e = search (usb_leaves, sync_ep_buffer-Keeps, start_next-Keeps) depth 20

pub stall-Keeps : (a : ℕ) → Keeps usb IsShared (dcd_edpt_stall_new a)
unfolding dcd_edpt_stall_new
stall-Keeps a = search (usb_leaves, set_value32-Keeps)

pub clear_stall-Keeps : (a : ℕ) → Keeps usb IsShared (dcd_edpt_clear_stall_new a)
unfolding dcd_edpt_clear_stall_new
clear_stall-Keeps a = search (usb_leaves, clear_mask32-Keeps)

pub load_byte-Keeps : (p : Pointer) → Keeps usb IsShared (load_byte p)
unfolding load_byte
load_byte-Keeps p = search (composed, load-Keeps)

pub load_u16-Keeps : (p : Pointer) → Keeps usb IsShared (load_u16 p)
unfolding load_u16
load_u16-Keeps p = search (composed, load-Keeps)
