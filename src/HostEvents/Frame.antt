-- ===== src/HostEvents/Frame.antt =====
-- The variables of host_event_handlers.c, as a part of the state that other code leaves alone.
use usbsec.Base.{refl}
use usbsec.Node.State.{Node, HostState}
use usbsec.Node.Monad.{M}
use usbsec.Node.Keeps.{Keeps}
use usbsec.Endpoint.Frame.{IsApart}

abbrev pub host_of : Node → HostState
host_of n = n.host

abbrev pub KeepsHost : {A : Type 0} → (HostState → Type 0) → M A → Type 0
KeepsHost Q m = Keeps host_of Q m

pub host-IsApart : IsApart host_of
host-IsApart = record {
  mem = λ n m. refl;
  usb = λ n u. refl;
  regs = λ n r. refl;
  events = λ n es. refl;
  gpio_inited = λ n b. refl;
}
