-- ===== src/Tests/SharingExamples.antt =====
-- A bulk endpoint in each direction is opened after a reset.
use usbsec.Base.{◌≡◌, refl, ap, true, [], ◌∷◌}
use usbsec.Node.Sdk.{forward}
use usbsec.Node.State.{Node}
use usbsec.Node.Monad.{ok}
use usbsec.Node.Memory.{fetch}
use usbsec.Dcd.{dcd_edpt_open_new}
use usbsec.DcdIrq.{reset_non_control_endpoints}
use usbsec.DcdIrq.Layout.{IsShared}
use usbsec.DcdIrq.Sharing.{opens, resets, and_then, reached-IsShared}
use usbsec.Tests.Fixtures.{holding, held}

-- endpoint descriptors: 0x81 and 0x02, bulk, 64 bytes
abbrev described : Node
described = holding (7 ∷ 5 ∷ 0x81 ∷ 2 ∷ 64 ∷ 0 ∷ 0 ∷ 7 ∷ 5 ∷ 0x02 ∷ 2 ∷ 64 ∷ 0 ∷ 0 ∷ [])

abbrev closed : Node
closed = (reset_non_control_endpoints described).1

abbrev one_open : Node
one_open = (dcd_edpt_open_new held closed).1

abbrev both_open : Node
both_open = (dcd_edpt_open_new (forward held 7) one_open).1

closed_test : (reset_non_control_endpoints described).0 ≡ ok tt
unfolding reset_non_control_endpoints
closed_test = refl

one_open_test : (dcd_edpt_open_new held closed).0 ≡ ok true
unfolding dcd_edpt_open_new reset_non_control_endpoints fetch
one_open_test = refl

both_open_test :
    ((dcd_edpt_open_new (forward held 7) one_open).0 ≡ ok true)
    × ((both_open.usb.endpoint 3).hw_data_buf.off ≡ 0x180)
    × ((both_open.usb.endpoint 4).hw_data_buf.off ≡ 0x200)
unfolding dcd_edpt_open_new reset_non_control_endpoints fetch
both_open_test = (refl, refl, refl)

reached-IsShared_example : IsShared both_open.usb
reached-IsShared_example = reached-IsShared (
    and_then
      (and_then (resets described (ap (λ o. (o, closed)) closed_test))
        (opens held (ap (λ o. (o, one_open)) one_open_test)))
      (opens (forward held 7) (ap (λ o. (o, both_open)) (both_open_test.0))))
