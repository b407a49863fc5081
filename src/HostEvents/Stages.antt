-- ===== src/HostEvents/Stages.antt =====
-- The stages of a control transfer on the slave.
use usbsec.Base.{
  Bool-cases, inl, inr, bit_or, ℕ, ◌≡◌, refl, ap, has, subst, ◌==◌, ◌&&◌, if◌then◌else◌, false,
}
use usbsec.Node.Sdk.{Sdk, null}
use usbsec.Node.State.{Node, HostState}
use usbsec.Node.Monad.{ok, pure, runtime_assert, when, ◌>>=◌, ◌>>◌}
use usbsec.Node.Keeps.{Keeps-pure}
use usbsec.Node.Keeps.Leads.{Leads, Ends, Leads-kept, Leads-bind}
use usbsec.Node.Memory.{host_setup_packet, load_byte}
use usbsec.Messages.MsgType.{last_packet, setup_data}
use usbsec.Endpoint.Frame.{leaves, local_bytes-Keeps, runtime_assert-Keeps}
use usbsec.Hcd.Frame.{hcd_edpt_xfer-Keeps}
use usbsec.HostEvents.{on_control_complete, read_response, send_event_to_master, update_host}
use usbsec.Hcd.{hcd_edpt_xfer}
use usbsec.HostEvents.Queues.{enqueue_spi_message-Keeps}
use usbsec.HostEvents.Frame.{host_of, KeepsHost, host-IsApart}

-- what a completed transfer on endpoint 0 does to the stage and the lock
abbrev pub completed : ℕ → HostState → HostState
completed result h =
    if h.level == 0
    then record h { level = 1 }
    else (if h.level == 1 && result == 0 then record h { level = 2; debug_lock = false } else h)

abbrev Was : HostState → HostState → Type 0
Was before h = h ≡ before

level_1_lem :
    (before : HostState)
    → Leads host_of
        (Was before)
        (Was (record before { level = 1 }))
        (update_host (λ r. record r { level = 1 }))
level_1_lem before = record {
  after = λ n same. ap {A = HostState} (λ h. record h { level = 1 }) same;
}

level_2_lem :
    (before : HostState)
    → Leads host_of
        (Was before)
        (Was (record before { level = 2; debug_lock = false }))
        (update_host (λ r. record r { level = 2; debug_lock = false }))
level_2_lem before = record {
  after = λ n same. ap {A = HostState} (λ h. record h { level = 2; debug_lock = false }) same;
}

module _ ⦃sdk : Sdk⦄ where
  module _ {Q : HostState → Type 0} where
    pub read_response-Keeps : (d : ℕ) → KeepsHost Q (read_response d)
    unfolding read_response
    read_response-Keeps d = search (leaves, host-IsApart, hcd_edpt_xfer-Keeps) depth 20

    pub send_event_to_master-Keeps :
        (len a flag : ℕ) → KeepsHost Q (send_event_to_master len a flag)
    unfolding send_event_to_master
    send_event_to_master-Keeps len a flag =
        search (leaves, host-IsApart, local_bytes-Keeps, enqueue_spi_message-Keeps) depth 20

    acknowledge-Keeps :
        (d : ℕ)
        → KeepsHost Q (do
          request ← load_byte host_setup_packet
          when (has request 0x80) (hcd_edpt_xfer d 0x00 null 0 >> pure tt))
    acknowledge-Keeps d = search (leaves, host-IsApart, hcd_edpt_xfer-Keeps) depth 20

  start_lem :
      (before : HostState) (d len result : ℕ)
      → Leads host_of (Was before) (Was (record before { level = 1 })) (do
        runtime_assert (len == 0)
        runtime_assert (result == 0)
        update_host (λ r. record r { level = 1 })
        read_response d)
  start_lem before d len result =
      Leads-bind _ _ (Leads-kept _ (runtime_assert-Keeps host-IsApart (len == 0))) (λ _.
        Leads-bind _ _ (Leads-kept _ (runtime_assert-Keeps host-IsApart (result == 0)))
          (λ _. Leads-bind _ _ (level_1_lem before) (λ _. Leads-kept _ (read_response-Keeps d))))

  finish_lem :
      (before : HostState) (d : ℕ)
      → Leads host_of (Was before) (Was (record before { level = 2; debug_lock = false })) (do
        update_host (λ r. record r { level = 2; debug_lock = false })
        request ← load_byte host_setup_packet
        when (has request 0x80) (hcd_edpt_xfer d 0x00 null 0 >> pure tt))
  finish_lem before d =
      Leads-bind _ _ (level_2_lem before) (λ _. Leads-kept _ (acknowledge-Keeps d))

  completed_at :
      (before : HostState) (d a len result : ℕ)
      → Leads host_of (Was before) (Was (completed result before)) (
          if before.level == 0
          then (do
            runtime_assert (len == 0)
            runtime_assert (result == 0)
            update_host (λ r. record r { level = 1 })
            read_response d)
          else (when (before.level == 1) (do
            if result == 0
                then (do
                  update_host (λ r. record r { level = 2; debug_lock = false })
                  request ← load_byte host_setup_packet
                  when (has request 0x80) (hcd_edpt_xfer d 0x00 null 0 >> pure tt))
                else read_response d
            send_event_to_master len a
                (bit_or (if result == 0 then last_packet else 0) setup_data))))
  completed_at before d a len result = elim (Bool-cases (before.level == 0)) [
    | inl first ↦ rw first (start_lem before d len result)
    | inr later ↦ elim (Bool-cases (before.level == 1)) [
      | inl second ↦ elim (Bool-cases (result == 0)) [
        | inl done ↦
            rw (later, second, done)
              (Leads-bind _ _ (finish_lem before d)
                (λ _. Leads-kept _ (send_event_to_master-Keeps len a _)))
        | inr more ↦
            rw (later, second, more)
              (Leads-bind _ _ (Leads-kept _ (read_response-Keeps d))
                (λ _. Leads-kept _ (send_event_to_master-Keeps len a _)))
      ]
      | inr other ↦ rw (later, other) (Leads-kept _ (Keeps-pure tt))
    ]
  ]

  -- Where the handler of a completed transfer on endpoint 0 returns, the stage has gone from the
  -- setup packet to the data, from the data to the status if the result is success, and else
  -- stayed; the lock is off after the data stage and untouched in the others, and the address of
  -- the device is never changed.
  pub on_control_complete_lem :
      (d a len result : ℕ) (n n' : Node)
      → on_control_complete d a len result n ≡ (ok tt, n')
      → n'.host ≡ completed result n.host
  unfolding on_control_complete
  on_control_complete_lem d a len result n n' runs =
      subst (Ends host_of (Was (completed result n.host))) runs
        ((completed_at n.host d a len result).after n refl)
