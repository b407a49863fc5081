-- ===== src/Drivers/Keyboard.antt =====
-- What the validator keeps from the computer: the messages of a keyboard's endpoint.
use usbsec.Base.{ℕ, [], ◌<◌, ◌≢◌, ◌≡◌, List, some, true, false, ◌∷◌, get_or, arith}
use usbsec.Node.Sdk.{Sdk, Message, Pointer, forward}
use usbsec.Node.State.{Node, hid, Event}
use usbsec.Node.Monad.{ok, stop, Stop, error}
use usbsec.Node.Memory.{fetch, load, load_byte}
use usbsec.Validator.{is_keyboard, check_comm}
use usbsec.Drivers.{
  idx, check_index, set_driver, register_driver_for_edpt, handle_spi_slave_event_with_driver,
  hid_spi,
}

abbrev pub lit : Node → Node
lit n = record n { events = Event.gpio_put 25 true ∷ n.events }

module _ ⦃sdk : Sdk⦄ where
  pub keyboard_stops :
      (msg : Message) (edpt : ℕ) (n : Node)
      → idx edpt < 32
      → is_keyboard (n.drivers.itf_copy (idx edpt)) ≡ true
      → handle_spi_slave_event_with_driver msg edpt n ≡ (stop Stop.panic, lit n)
  unfolding handle_spi_slave_event_with_driver check_index check_comm error
  keyboard_stops msg edpt n small k = ground (arith)

  passed_on :
      (msg : Message) (edpt : ℕ) (n : Node)
      → idx edpt < 32
      → is_keyboard (n.drivers.itf_copy (idx edpt)) ≡ false
      → n.drivers.driver (idx edpt) ≡ hid
      → handle_spi_slave_event_with_driver msg edpt n ≡ hid_spi msg edpt n
  unfolding handle_spi_slave_event_with_driver check_index check_comm
  passed_on msg edpt n small k d = ground arith

  -- What registration of a HID endpoint leaves, where it returns: the copy of the interface, the
  -- driver, and everything outside the drivers as it was.
  registered :
      (edpt itf : Pointer) (mps ep_addr : ℕ) (desc : List ℕ) (n : Node)
      → fetch n.mem (forward edpt 2) 1 ≡ some (ep_addr ∷ [])
      → fetch n.mem itf 9 ≡ some desc
      → get_or desc 5 0 ≡ 3
      → idx ep_addr < 32
      → let (r, n') = register_driver_for_edpt edpt itf mps n in
        (r ≡ ok tt)
        × (n'.drivers.itf_copy (idx ep_addr)
            ≡ record { interface_class = 3; interface_protocol = get_or desc 7 0 })
        × (n'.drivers.driver (idx ep_addr) ≡ hid)
  unfolding register_driver_for_edpt load_byte load check_index set_driver
  registered edpt itf mps ep_addr desc n h1 h2 c small = ground arith

  -- Once an endpoint is registered from the descriptors of a HID interface with protocol 1, a
  -- keyboard, the registration returns, and in every state with the copy of an interface that it
  -- has made for the endpoint, its own state and any later one before that copy is changed, a
  -- message from the endpoint lights the LED and makes the firmware panic, and nothing else
  -- changes, so nothing of the message reaches the computer.
  pub keyboard_refused :
      (msg : Message) (edpt itf : Pointer) (mps ep_addr : ℕ) (desc : List ℕ) (n later : Node)
      → fetch n.mem (forward edpt 2) 1 ≡ some (ep_addr ∷ [])
      → fetch n.mem itf 9 ≡ some desc
      → get_or desc 5 0 ≡ 3
      → get_or desc 7 0 ≡ 1
      → idx ep_addr < 32
      → later.drivers.itf_copy (idx ep_addr)
        ≡ (register_driver_for_edpt edpt itf mps n).1.drivers.itf_copy (idx ep_addr)
      → ((register_driver_for_edpt edpt itf mps n).0 ≡ ok tt)
        × (handle_spi_slave_event_with_driver msg ep_addr later ≡ (stop Stop.panic, lit later))
  keyboard_refused msg edpt itf mps ep_addr desc n later h1 h2 c p small kept =
      let (returns, copy, _) = registered edpt itf mps ep_addr desc n h1 h2 c small in
      (returns, keyboard_stops msg ep_addr later small (rw (kept, copy, p)))

  -- A HID interface of any other protocol that is registered last for an endpoint is passed on to
  -- the HID driver, whatever was registered for that endpoint before.
  pub last_registration_decides :
      (msg : Message) (edpt itf : Pointer) (mps ep_addr : ℕ) (desc : List ℕ) (n : Node)
      → fetch n.mem (forward edpt 2) 1 ≡ some (ep_addr ∷ [])
      → fetch n.mem itf 9 ≡ some desc
      → get_or desc 5 0 ≡ 3
      → get_or desc 7 0 ≢ 1
      → idx ep_addr < 32
      → let n' = (register_driver_for_edpt edpt itf mps n).1 in
        handle_spi_slave_event_with_driver msg ep_addr n' ≡ hid_spi msg ep_addr n'
  last_registration_decides msg edpt itf mps ep_addr desc n h1 h2 c p small =
      let (_, copy, driver) = registered edpt itf mps ep_addr desc n h1 h2 c small in
      passed_on msg ep_addr _ small (rw copy (ground arith)) driver
