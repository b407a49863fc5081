-- ===== src/Lib.antt =====
-- USBSEC: firmware for two Raspberry Pi Picos that stand between a computer and a USB device. The
-- master is the device that the computer sees, the slave is the host that the device sees, and
-- they exchange messages over SPI. Both are built from the same sources, pico_firmware/src; which
-- of the two a build is, is the field `role` here.
--
-- The parts, and the files that model them:
--   * Node: the state of one microcontroller, with a record for the static variables of each
--     source file; the actions that may stop (`error`, `runtime_assert`, a fault, a wait); memory by
--     blocks (Memory, with Within for reads and writes inside a block); Printf, for a format string
--     from memory, as the C standard describes it; the interface `Sdk` to the queues of the Pico SDK
--     and to `malloc`; Keeps and Keeps.Leads, rules for what an action leaves
--     as it is and what it leads to.
--   * Spi: lib/messages/spi_data.c, framed transfers between the two.
--   * Messages: lib/messages/messages.c, the queues and `sync`, which core 1 runs all the time;
--     Contents says what the messages on a wire and in a queue stand for, Deliver takes one message
--     from the wire, Untouched and Outside say what sending, receiving and the whole of `sync` leave
--     alone, Round follows one round of it on both sides, Link describes the link as two queues of
--     messages, Linked says when an end of it is in order, and FakeSpi has the recorded messages for
--     a test without the link.
--   * Regs, Endpoint: the registers of the USB controller, and lib/rp2040/rp2040_usb.c, transfers
--     on one endpoint. Bus has the computer's side of a transfer with the master, where what the
--     controller leaves in a buffer control register is a parameter; Sending follows a transfer to
--     the computer through it (Loading and Continue have one packet of it), and Receiving one from
--     the computer (Awaiting, Copies, Arriving and Collect). Slave has the length that the slave
--     tells its controller.
--   * Dcd, DcdIrq: lib/rp2040/dcd_rp2040.c, the controller of the master; Layout, Opening, Transfers
--     and Sharing of DcdIrq are about the buffers of its endpoints in the USB memory.
--   * Validator, Drivers, Aggregator, DeviceEvents: the master's side of the traffic,
--     lib/validator, lib/drivers, lib/setup_response_aggregator and
--     lib/usb_event_handlers/device_event_handlers.c.
--   * Hcd, HcdIrq, HostEvents, DirectionCtrl: lib/rp2040/hcd_rp2040.c,
--     lib/usb_event_handlers/host_event_handlers.c and lib/direction_ctrl, the slave's side;
--     HcdIrq.Invariant has the steps that the slave takes, in any order, and SetupSent and Report of
--     HostEvents what becomes of a setup packet and of data. The Frame of Endpoint and
--     that of Hcd say which parts of a node the controllers leave alone.
--   * Journey: through the parts above, from interrupt to interrupt: Setup follows a setup packet
--     from the master to the controller of the slave, Keyboard a keyboard's packet from the slave
--     to the master.
--   * Main: main.c.
--   * Debug: lib/debug, which messages are printed.
--   * Legacy: legacy, which is not built: queueing (Queue, Events), bit (Bits), edpt_registry
--     (Registry), usb_pio (PioUsb), and what its programs do (Mains).
-- The functions keep their names, apart from leading underscores. A function of the source is an
-- action on the node; a pointer is a block and an offset, and every array and struct that is
-- pointed to is a block, whose bounds are checked at each access. Endpoints and registers are
-- named by numbers (State, Regs), and an endpoint number that has no row in the table of the master
-- is a stop. The fields of descriptors are read from their bytes.
--
-- What is assumed: assertions are compiled in; a node runs a function from beginning to end, so the
-- other core and the hardware act only between functions; input pins and the registers that the
-- hardware writes are part of the state that a function starts from. Writes through the set and
-- clear aliases of registers, and calls of the SDK that return nothing, are kept as events. The
-- register behind the null pointer of endpoint 0 is register 0. Freed memory is no block.
--
-- Fuel: `send_all`, `next_packet` get one more than the messages queued, `receive_until_query` one
-- more than the bytes on the wire, and `handle_descriptors` one more than the bytes to read, which
-- runs out only where the source's loop does not end.
--
-- `take_packets`, the computer's side of a transfer to it, gets one more than the bytes of the
-- transfer. The loop of the sender in Legacy.PioUsb gets two rounds for each bit, and one.
--
-- Not modelled: the SDK's set-up of clocks, and what the programs of the directory legacy call that
-- the repository does not have.
pub mod Base
pub mod Node
pub mod Spi
pub mod Messages
pub mod Regs
pub mod Endpoint
pub mod Dcd
pub mod Validator
pub mod Drivers
pub mod Aggregator
pub mod DeviceEvents
pub mod DcdIrq
pub mod DirectionCtrl
pub mod Hcd
pub mod HostEvents
pub mod HcdIrq
pub mod Main
pub mod Journey
pub mod Debug
pub mod Legacy
pub mod Tests
