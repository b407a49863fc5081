-- ===== src/Tests/SlaveExamples.antt =====
-- A history of the slave: it is told to change the address, sends the setup packet for it, and is
-- interrupted when that is complete.
use usbsec.Base.{◌^◌, ◌≡◌, refl, ap, [], ◌∷◌, ◌==◌, if◌then◌else◌}
use usbsec.Node.Sdk.{null}
use usbsec.Node.State.{Node, slave}
use usbsec.Node.Monad.{ok}
use usbsec.Messages.MsgType.{chg_addr}
use usbsec.Node.Memory.{fetch, poke}
use usbsec.Regs.{ints}
use usbsec.HostEvents.{slavework, on_control_complete}
use usbsec.HostEvents.Stages.{completed, on_control_complete_lem}
use usbsec.HostEvents.Invariant.{IsHost}
use usbsec.HcdIrq.{hcd_rp2040_irq_new}
use usbsec.HcdIrq.Invariant.{works, interrupted, elsewhere, none_yet, and_then, reachable-IsHost}
use usbsec.Tests.Fixtures.{list_sdk, start}

abbrev told : Node
told = record start {
  role = slave;
  rx = record { e_flag = chg_addr; payload_length = 0; payload = null } ∷ [];
}

abbrev sent : Node
sent = (slavework told).1

-- The controller reports TRANS_COMPLETE.
abbrev signalled : Node
signalled = record sent { regs = λ r. if r == ints then 2 ^ 3 else sent.regs r }

abbrev reading : Node
reading = (hcd_rp2040_irq_new signalled).1

slavework_test : (slavework told).0 ≡ ok tt
unfolding slavework fetch poke
slavework_test = refl

irq_test : (hcd_rp2040_irq_new signalled).0 ≡ ok tt
unfolding slavework hcd_rp2040_irq_new fetch poke
irq_test = refl

reading_test : (reading.host.level ≡ 1) × (reading.host.dev_addr ≡ 7)
unfolding slavework hcd_rp2040_irq_new fetch poke
reading_test = (refl, refl)

reachable-IsHost_example : IsHost reading.host
reachable-IsHost_example = reachable-IsHost {start = told} refl (
    and_then
      (and_then (and_then none_yet (works (ap (λ o. (o, sent)) slavework_test)))
        (elsewhere {n' = signalled} refl))
      (interrupted (ap (λ o. (o, reading)) irq_test)))

complete_test : (on_control_complete 7 0 0 0 sent).0 ≡ ok tt
unfolding slavework on_control_complete fetch poke
complete_test = refl

on_control_complete_lem_example : (on_control_complete 7 0 0 0 sent).1.host ≡ completed 0 sent.host
on_control_complete_lem_example =
    on_control_complete_lem 7 0 0 0 sent (on_control_complete 7 0 0 0 sent).1
      (ap (λ o. (o, (on_control_complete 7 0 0 0 sent).1)) complete_test)
