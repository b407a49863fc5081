-- ===== src/Node/State.antt =====
-- The state of one microcontroller: a record for the static variables of each source file, and
-- `Node`, which holds them with the memory and the hardware.
use usbsec.Base.{ℕ, Bool, List}
use usbsec.Node.Sdk.{Pointer, Store, Queue}

-- `spi_role` of messages/masterslave.h
pub data Role : Type 0 where
  master slave : Role

-- `hw_endpoint_t` of usb_event_handlers/usb_event_handlers.h. The two control registers are
-- named by their numbers; register 0 is where a null register pointer leads.
pub record HwEndpoint : Type 0 where
  pub configured : Bool
  pub rx : Bool
  pub ep_addr : ℕ
  pub next_pid : ℕ
  pub endpoint_control : ℕ
  pub buffer_control : ℕ
  pub hw_data_buf : Pointer
  pub active : Bool
  pub remaining_len : ℕ
  pub xferred_len : ℕ
  pub user_buf : Pointer
  pub w_max_packet_size : ℕ
  pub transfer_type : ℕ
  pub dev_addr : ℕ
  pub interrupt_num : ℕ
  pub partial : Bool

-- `driver_t` of drivers/drivers.h
pub data Driver : Type 0 where
  illegal mass_storage hid : Driver

-- The two fields of `tusb_desc_interface_t` that the firmware reads.
pub record InterfaceDesc : Type 0 where
  pub interface_class : ℕ
  pub interface_protocol : ℕ

-- drivers/drivers.c; `driver` and `itf_copy` are its two arrays of 32
pub record DriverState : Type 0 where
  pub driver : ℕ → Driver
  pub itf_copy : ℕ → InterfaceDesc
  pub permit_0x81 : Bool
  pub count_0x81 : ℕ
  pub other_edpt : ℕ
  pub max_packet_size : ℕ

-- setup_response_aggregator/setup_response_aggregator.c
pub record AggregatorState : Type 0 where
  pub mps : ℕ
  pub len : ℕ

-- `setup_response_dir` of usb_event_handlers/device_event_handlers.c
pub data ResponseDir : Type 0 where
  reading_response writing_response : ResponseDir

-- usb_event_handlers/device_event_handlers.c
pub record DeviceState : Type 0 where
  pub max_packet_size : ℕ
  pub setup_response_dir : ResponseDir

-- usb_event_handlers/host_event_handlers.c
pub record HostState : Type 0 where
  pub level : ℕ
  pub dev_addr : ℕ
  pub debug_lock : Bool

-- rp2040/dcd_rp2040.c and rp2040/hcd_rp2040.c: `endpoint` holds `hw_endpoints[num][dir]` at
-- `2 * num + dir`, and `ep_pool[i]` at `32 + i`
pub record UsbState : Type 0 where
  pub endpoint : ℕ → HwEndpoint
  pub active_ep : ℕ
  pub next_buffer_ptr : Pointer

-- messages/spi_data.c, with the bytes that the wire will deliver and those that were sent
pub record SpiState : Type 0 where
  pub flag : ℕ
  pub dummy : ℕ
  pub wire_in : List ℕ
  pub wire_out : List ℕ

-- Calls of the SDK that return nothing: the node keeps them, newest first.
pub data Event : Type 0 where
  gpio_put : ℕ → Bool → Event
  gpio_init gpio_set_function : ℕ → Event
  gpio_set_dir : ℕ → Bool → Event
  reg_set reg_clear : ℕ → ℕ → Event
  spi_init : ℕ → Event
  spi_set_slave : Bool → Event
  print : List ℕ → Event
  usb_init : Event
  irq_set_enabled : Bool → Event

pub record Node : Type 0 where
  pub role : Role
  pub mem : Store
  pub next_block : ℕ
  pub pin : ℕ → Bool
  pub regs : ℕ → ℕ
  pub events : List Event
  pub tx : Queue
  pub rx : Queue
  pub gpio_inited : Bool
  pub spi : SpiState
  pub usb : UsbState
  pub drivers : DriverState
  pub aggregator : AggregatorState
  pub device : DeviceState
  pub host : HostState
