-- ===== src/DcdIrq/Opening.antt =====
-- Opening an endpoint of the master, and closing all of them.
use usbsec.Base.{
  ltb, ℕ, ◌%◌, ◌≤◌, ◌<◌, ◌≢◌, ◌≡◌, inl, inr, refl, ap, true, false, Bool-cases, ◌==◌, arith,
}
use usbsec.Node.Sdk.{forward}
use usbsec.Node.State.{Node, UsbState}
use usbsec.Node.Monad.{Void, Stop, Result, ok, stop, runtime_assert}
use usbsec.Node.Keeps.Leads.{Leads, Ends}
use usbsec.Endpoint.{edpt_number}
use usbsec.Regs.{usb_max_endpoints}
use usbsec.Dcd.{by_addr, alloc_size, hw_endpoint_init, hw_endpoint_alloc}
use usbsec.DcdIrq.Layout.{IsShared, same-IsShared, opened-IsShared}

-- an endpoint that is not of number 0 gets the memory behind the buffers before it
init_lem :
    (ep_addr size transfer_type : ℕ) (n : Node)
    → (edpt_number ep_addr == 0) ≡ false
    → ltb (edpt_number ep_addr) usb_max_endpoints ≡ true
    → let e0 = by_addr ep_addr in
      let (r, n') = hw_endpoint_init ep_addr size transfer_type n in
      (n'.usb.next_buffer_ptr ≡ forward n.usb.next_buffer_ptr (alloc_size size transfer_type))
      × ((n'.usb.endpoint e0).hw_data_buf ≡ n.usb.next_buffer_ptr)
      × ((n'.usb.endpoint e0).w_max_packet_size ≡ size)
      × (r ≡ ok tt → n'.usb.next_buffer_ptr.off ≤ 4096)
unfolding hw_endpoint_init hw_endpoint_alloc runtime_assert
init_lem ep_addr size transfer_type n not_0 in_table =
    (ground arith, ground arith, ground arith, λ returns. ground arith)

init_others :
    (ep_addr size transfer_type : ℕ) (n : Node) (e : ℕ)
    → e ≢ by_addr ep_addr
    → (hw_endpoint_init ep_addr size transfer_type n).1.usb.endpoint e ≡ n.usb.endpoint e
unfolding hw_endpoint_init hw_endpoint_alloc runtime_assert
init_others ep_addr size transfer_type n e other = ground arith

-- one whose number has no row in the table is not looked up
init_beyond :
    (ep_addr size transfer_type : ℕ) (n : Node)
    → ltb (edpt_number ep_addr) usb_max_endpoints ≡ false
    → (hw_endpoint_init ep_addr size transfer_type n).0 ≡ stop Stop.fault
unfolding hw_endpoint_init
init_beyond ep_addr size transfer_type n beyond = ground arith

-- one of number 0 does not
init_0 :
    (ep_addr size transfer_type : ℕ) (n : Node)
    → (edpt_number ep_addr == 0) ≡ true
    → (by_addr ep_addr < 2)
      × ((hw_endpoint_init ep_addr size transfer_type n).1.usb.next_buffer_ptr
          ≡ n.usb.next_buffer_ptr)
unfolding hw_endpoint_init
init_0 ep_addr size transfer_type n is_0 = (ground arith, ground arith)

room_lem :
    (size transfer_type : ℕ)
    → size < 2048
    → (size ≤ alloc_size size transfer_type) × (alloc_size size transfer_type % 64 ≡ 0)
room_lem size transfer_type small = (ground arith, ground arith)

returned_not_fault : (r : Result Void) → r ≡ ok tt → r ≡ stop Stop.fault → ⊥
returned_not_fault r returns faults = absurd cc

init-IsShared :
    (ep_addr size transfer_type : ℕ) (n : Node)
    → size < 2048
    → IsShared n.usb
    → (hw_endpoint_init ep_addr size transfer_type n).0 ≡ ok tt
    → IsShared (hw_endpoint_init ep_addr size transfer_type n).1.usb
init-IsShared ep_addr size transfer_type n small shared returns =
    let v : UsbState = (hw_endpoint_init ep_addr size transfer_type n).1.usb in
    let others = init_others ep_addr size transfer_type n in
    elim (Bool-cases (edpt_number ep_addr == 0)) [
      | inl is_0 ↦
          let (low, next) = init_0 ep_addr size transfer_type n is_0 in
          same-IsShared n.usb v next
            (λ e l. ap (λ r. r.hw_data_buf) (others e (λ same. absurd (omega (arith, same)))))
            (λ e l. ap (λ r. r.w_max_packet_size) (others e (λ same. absurd (omega (arith, same)))))
            shared
      | inr not_0 ↦ elim (Bool-cases (ltb (edpt_number ep_addr) usb_max_endpoints)) [
        | inl in_table ↦
            let (next, hw0, size0, within) = init_lem ep_addr size transfer_type n not_0 in_table in
            let (fits, whole) = room_lem size transfer_type small in
            opened-IsShared n.usb v (by_addr ep_addr) size (alloc_size size transfer_type) fits next
              hw0 size0 others shared whole (within returns)
        | inr beyond ↦
            absurd (returned_not_fault _ returns (init_beyond ep_addr size transfer_type n beyond))
      ]
    ]

pub ends-returned :
    (view : Node → UsbState) (R : UsbState → Type 0) (r : Result Void × Node)
    → (r.0 ≡ ok tt → R (view r.1))
    → Ends view R r
ends-returned view R (ok a, n) h = h refl
ends-returned view R (stop s, n) h = tt

pub init-Leads :
    (ep_addr size transfer_type : ℕ)
    → size < 2048
    → Leads (λ n. n.usb) IsShared IsShared (hw_endpoint_init ep_addr size transfer_type)
init-Leads ep_addr size transfer_type small = record {
  after = λ n shared.
      ends-returned (λ m. m.usb) IsShared (hw_endpoint_init ep_addr size transfer_type n)
        (init-IsShared ep_addr size transfer_type n small shared);
}
