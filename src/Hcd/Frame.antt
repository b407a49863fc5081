-- ===== src/Hcd/Frame.antt =====
-- The host controller leaves alone what memory, registers, endpoints and pins have nothing to do
-- with.
use usbsec.Base.{ℕ, refl, ◌≡◌, ◌-◌, Option, none, some, false}
use usbsec.Node.Sdk.{Pointer}
use usbsec.Node.State.{Node}
use usbsec.Node.Keeps.{Keeps, Keeps-same, Keeps-bind, Keeps-pure}
use usbsec.Node.Monad.{Result, ok, pure, ◌>>◌}
use usbsec.Endpoint.Frame.{IsApart, leaves, runtime_assert-Keeps, hw_endpoint_xfer_start-Keeps}
use usbsec.Endpoint.{update}
use usbsec.Hcd.{
  set_active_ep, first_free, need_pre, dev_speed, get_dev_ep, the_endpoint, next_free_interrupt_ep,
  hw_endpoint_allocate, hw_endpoint_init, hcd_edpt_open, hcd_edpt_xfer, hcd_setup_send,
  enable_interrupt_endpoint,
}

numbered :
    {S : Type 0} {view : Node → S}
    → IsApart view
    → (n : Node) (found : Option ℕ)
    → view
        (elim found as (λ x. Result ℕ × Node) [
          | none ↦ (ok 47, n)
          | some e ↦ (update e (λ r. record r { interrupt_num = e - 33 }) >> pure e) n
        ]).1
      ≡ view n
numbered apart n none = refl
numbered apart n (some e) = apart.usb n _

module _ {S : Type 0} {view : Node → S} {P : S → Type 0} (apart : IsApart view) where
  pub need_pre-Keeps : Keeps view P need_pre
  unfolding need_pre dev_speed
  need_pre-Keeps = record { after = λ n h. h }

  pub get_dev_ep-Keeps : (a : ℕ) → Keeps view P (get_dev_ep a)
  unfolding get_dev_ep
  get_dev_ep-Keeps a = record { after = λ n h. h }

  pub next_free_interrupt_ep-Keeps : Keeps view P next_free_interrupt_ep
  unfolding next_free_interrupt_ep
  next_free_interrupt_ep-Keeps =
      Keeps-same _ (λ n. numbered apart n (first_free 15 33 n.usb.endpoint))

  set_active_ep-Keeps : (e : ℕ) → Keeps view P (set_active_ep e)
  set_active_ep-Keeps e = Keeps-same _ (λ n. apart.usb n _)

  ruleset pool_leaves =
      (leaves, set_active_ep-Keeps, need_pre-Keeps, get_dev_ep-Keeps, next_free_interrupt_ep-Keeps)

  pub hw_endpoint_allocate-Keeps : (t a : ℕ) → Keeps view P (hw_endpoint_allocate t a)
  unfolding hw_endpoint_allocate
  hw_endpoint_allocate-Keeps t a = search (pool_leaves)

  pub enable_interrupt_endpoint-Keeps : (e d a : ℕ) → Keeps view P (enable_interrupt_endpoint e d a)
  unfolding enable_interrupt_endpoint
  enable_interrupt_endpoint-Keeps e d a = search (pool_leaves)

  pub hw_endpoint_init-Keeps : (e d a size t i : ℕ) → Keeps view P (hw_endpoint_init e d a size t i)
  unfolding hw_endpoint_init
  hw_endpoint_init-Keeps e d a size t i =
      search (pool_leaves, enable_interrupt_endpoint-Keeps) depth 20

  pub hcd_edpt_open-Keeps : (p : Pointer) (d : ℕ) → Keeps view P (hcd_edpt_open p d)
  unfolding hcd_edpt_open
  hcd_edpt_open-Keeps p d =
      search (pool_leaves, hw_endpoint_allocate-Keeps, hw_endpoint_init-Keeps) depth 20

  pub hcd_setup_send-Keeps : (d : ℕ) (p : Pointer) → Keeps view P (hcd_setup_send d p)
  unfolding hcd_setup_send
  hcd_setup_send-Keeps d p =
      search (pool_leaves, hw_endpoint_allocate-Keeps, hw_endpoint_init-Keeps) depth 20

  the_endpoint-Keeps : (found : Option ℕ) → Keeps view P (the_endpoint found)
  unfolding the_endpoint
  the_endpoint-Keeps none = Keeps-bind _ _ (runtime_assert-Keeps apart false) (λ _. Keeps-pure 0)
  the_endpoint-Keeps (some e) = Keeps-pure e

  pub hcd_edpt_xfer-Keeps :
      (d a : ℕ) (p : Pointer) (len : ℕ) → Keeps view P (hcd_edpt_xfer d a p len)
  unfolding hcd_edpt_xfer
  hcd_edpt_xfer-Keeps d a p len =
      search (pool_leaves, the_endpoint-Keeps, hw_endpoint_init-Keeps, hw_endpoint_xfer_start-Keeps)
        depth 25
