-- ===== src/HostEvents/Invariant.antt =====
-- The state of the slave between two calls of its handlers, over every history of messages,
-- interrupts and completed transfers.
use usbsec.Base.{ℕ, true, false, ◌≡◌, ◌≤◌, ◌≢◌, ◌⊎◌, inl, inr, arith, refl}
use usbsec.Node.Sdk.{Pointer, Sdk, Message}
use usbsec.Node.State.{HostState}
use usbsec.Node.Monad.{M, ◌>>=◌, ◌>>◌}
use usbsec.Node.Memory.{host_setup_packet, free}
use usbsec.Node.Keeps.{Keeps-pure}
use usbsec.Node.Keeps.Leads.{Leads, Leads-kept, Leads-if, Leads-option, Leads-bind}
use usbsec.HostEvents.{
  chg_addr_setup, update_host, host, on_reset_usb, on_setup_data, on_usb_data, on_chg_addr,
  on_chg_epx_packetsize, handle_message, slavework, on_control_complete, hcd_event_xfer_complete,
  define_setup_packet,
}
use usbsec.Hcd.{hcd_setup_send, change_epx_packetsize}
use usbsec.Endpoint.Frame.{leaves, error-Keeps, memcpy-Keeps, local_bytes-Keeps, free-Keeps}
use usbsec.Hcd.Frame.{hcd_edpt_open-Keeps, hcd_edpt_xfer-Keeps, hcd_setup_send-Keeps}
use usbsec.HostEvents.Stages.{read_response-Keeps, send_event_to_master-Keeps}
use usbsec.HostEvents.Frame.{host_of, KeepsHost, host-IsApart}
use usbsec.HostEvents.Queues.{dequeue_spi_message-Keeps}

-- the stage of a transfer, and the address that transfers go to
pub record IsPlaced (h : HostState) : Type 0 where
  pub level_le : h.level ≤ 3
  pub addressed : (h.dev_addr ≡ 0) ⊎ (h.dev_addr ≡ 7)

-- Besides, the lock is not left behind by the data stage.
pub record IsHost (h : HostState) : Type 0 where
  pub placed : IsPlaced h
  pub unlocked : h.level ≡ 2 → h.debug_lock ≡ false

abbrev pub LeadsHost : {A : Type 0} → (P R : HostState → Type 0) → M A → Type 0
LeadsHost P R m = Leads host_of P R m

update_host-Keeps :
    (f : HostState → HostState)
    → ((h : HostState) → IsHost h → IsHost (f h))
    → KeepsHost IsHost (update_host f)
update_host-Keeps f keep = record { after = λ n h. keep n.host h }

-- The assignments that keep the invariant by themselves.
set_level-Keeps :
    (l : ℕ) → l ≤ 3 → l ≢ 2 → KeepsHost IsHost (update_host (λ h. record h { level = l }))
set_level-Keeps l le other = update_host-Keeps _ (λ h s. record {
  placed = record { level_le = le; addressed = s.placed.addressed };
  unlocked = λ two. absurd (other two);
})

set_dev_addr-Keeps :
    (a : ℕ) → (a ≡ 0) ⊎ (a ≡ 7) → KeepsHost IsHost (update_host (λ h. record h { dev_addr = a }))
set_dev_addr-Keeps a known = update_host-Keeps _ (λ h s. record {
  placed = record { level_le = s.placed.level_le; addressed = known };
  unlocked = s.unlocked;
})

unlock-Keeps : KeepsHost IsHost (update_host (λ h. record h { debug_lock = false }))
unlock-Keeps =
    update_host-Keeps (λ h. record h { debug_lock = false })
      (λ h s. record {
        placed = record { level_le = s.placed.level_le; addressed = s.placed.addressed };
        unlocked = λ _. refl;
      })

finish-Keeps : KeepsHost IsHost (update_host (λ h. record h { level = 2; debug_lock = false }))
finish-Keeps = update_host-Keeps _ (λ h s. record {
  placed = record { level_le = omega arith; addressed = s.placed.addressed };
  unlocked = λ _. refl;
})

reset_addr-Keeps : KeepsHost IsHost (update_host (λ h. record h { dev_addr = 0 }))
reset_addr-Keeps = set_dev_addr-Keeps 0 (inl refl)

addr_7-Keeps : KeepsHost IsHost (update_host (λ h. record h { dev_addr = 7 }))
addr_7-Keeps = set_dev_addr-Keeps 7 (inr refl)

level_1-Keeps : KeepsHost IsHost (update_host (λ h. record h { level = 1 }))
level_1-Keeps = set_level-Keeps 1 (omega arith) (omega arith)

level_3-Keeps : KeepsHost IsHost (update_host (λ h. record h { level = 3 }))
level_3-Keeps = set_level-Keeps 3 (omega arith) (omega arith)

on_reset_usb-Keeps : KeepsHost IsHost on_reset_usb
unfolding on_reset_usb
on_reset_usb-Keeps = search (leaves, host-IsApart, reset_addr-Keeps) depth 20

on_usb_data-Keeps : (message : Message) → KeepsHost IsHost (on_usb_data message)
unfolding on_usb_data
on_usb_data-Keeps message =
    search (leaves, host-IsApart, level_3-Keeps, hcd_edpt_xfer-Keeps) depth 20

on_chg_epx_packetsize-Keeps : (message : Message) → KeepsHost IsHost (on_chg_epx_packetsize message)
unfolding on_chg_epx_packetsize change_epx_packetsize
on_chg_epx_packetsize-Keeps message = search (leaves, host-IsApart) depth 20

-- A setup packet takes the lock before it resets the stage.
lock_lem : LeadsHost IsHost IsPlaced (update_host (λ h. record h { debug_lock = true }))
lock_lem = record {
  after = λ n s. record { level_le = s.placed.level_le; addressed = s.placed.addressed };
}

restart_lem : LeadsHost IsPlaced IsHost (update_host (λ h. record h { level = 0 }))
restart_lem = record {
  after = λ n s. record {
    placed = record { level_le = omega arith; addressed = s.addressed };
    unlocked = λ two. absurd (omega arith);
  };
}

define_setup_packet-Keeps :
    {Q : HostState → Type 0} (p : Pointer) → KeepsHost Q (define_setup_packet p)
unfolding define_setup_packet
define_setup_packet-Keeps p = memcpy-Keeps host-IsApart host_setup_packet p 8

setup-Keeps : KeepsHost IsHost (do h ← host; hcd_setup_send h.dev_addr host_setup_packet)
setup-Keeps = search (leaves, host-IsApart, hcd_setup_send-Keeps)

setup_7-Keeps : KeepsHost IsHost (do
  h ← host
  hcd_setup_send h.dev_addr host_setup_packet
  update_host (λ r. record r { dev_addr = 7 }))
setup_7-Keeps = search (leaves, host-IsApart, hcd_setup_send-Keeps, addr_7-Keeps)

on_setup_data_lem : (message : Message) → LeadsHost IsHost IsHost (on_setup_data message)
unfolding on_setup_data
on_setup_data_lem message = Leads-bind _ _ lock_lem (λ _.
    Leads-bind _ _ (Leads-kept _ (define_setup_packet-Keeps message.payload))
      (λ _. Leads-bind _ _ restart_lem (λ _. Leads-kept _ setup-Keeps)))

on_chg_addr_lem : LeadsHost IsHost IsHost on_chg_addr
unfolding on_chg_addr
on_chg_addr_lem = Leads-bind _ _ lock_lem (λ _.
    Leads-bind _ _ (Leads-kept _ (local_bytes-Keeps host-IsApart chg_addr_setup)) (λ setup.
      Leads-bind _ _ (Leads-kept _ (define_setup_packet-Keeps setup))
        (λ _. Leads-bind _ _ restart_lem (λ _. Leads-kept _ setup_7-Keeps))))

handle_message_lem : (message : Message) → LeadsHost IsHost IsHost (handle_message message)
unfolding handle_message
handle_message_lem message =
    search
      (
        leaves, host-IsApart, Leads-if, Leads-kept, on_reset_usb-Keeps, hcd_edpt_open-Keeps,
        on_setup_data_lem, on_usb_data-Keeps, on_chg_addr_lem, on_chg_epx_packetsize-Keeps,
        error-Keeps,
      )
      depth 30

module _ ⦃sdk : Sdk⦄ where
  on_control_complete-Keeps :
      (d a len result : ℕ) → KeepsHost IsHost (on_control_complete d a len result)
  unfolding on_control_complete
  on_control_complete-Keeps d a len result =
      search
        (
          leaves, host-IsApart, level_1-Keeps, finish-Keeps, read_response-Keeps,
          hcd_edpt_xfer-Keeps, send_event_to_master-Keeps,
        )
        depth 30

  pub hcd_event_xfer_complete-Keeps :
      (d a len result : ℕ) → KeepsHost IsHost (hcd_event_xfer_complete d a len result)
  unfolding hcd_event_xfer_complete
  hcd_event_xfer_complete-Keeps d a len result =
      search
        (leaves, host-IsApart, unlock-Keeps, on_control_complete-Keeps, send_event_to_master-Keeps)
        depth 20

  handled_lem :
      (message : Message) → LeadsHost IsHost IsHost (handle_message message >> free message.payload)
  handled_lem message =
      Leads-bind _ _ (handle_message_lem message)
        (λ _. Leads-kept _ (free-Keeps host-IsApart message.payload))

  pub slavework_lem : LeadsHost IsHost IsHost slavework
  unfolding slavework
  slavework_lem =
      Leads-bind _ _ (Leads-kept _ dequeue_spi_message-Keeps)
        (λ next. Leads-option next _ _ (Leads-kept _ (Keeps-pure tt)) handled_lem)
