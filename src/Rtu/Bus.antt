-- ===== src/Rtu/Bus.antt =====
-- The serial buses that the RTU clients of src/modbus_rtu_client.c share: the registry of opened
-- ports with its reference counts, and the silence between transactions.
--
-- The registry's lock is held over each of its operations, so each is one step. The results of
-- `realpath`, `calloc`, `pthread_mutex_init` and of opening the port are parameters.
pub mod Silence
pub mod Lookup
use modbus_protocol.Prelude.{
  ℕ, ◌+◌, ◌-◌, ◌*◌, ◌/◌, Bool, true, false, not, ◌&&◌, ◌||◌, Option, none, some, List, [], ◌∷◌, u32,
  ltb, leb, ◌==◌, if◌then◌else◌, Text, same_text, length,
}
use modbus_protocol.Rtu.Timing.{
  Parity, none_parity, even, odd, SerialConfig, effective_data_bits, effective_stop_bits,
  parity_bits, t35_us, effective_timing,
}

-- `MB_RTU_RS485_*`
pub data Rs485Mode : Type 0 where
  untouched : Rs485Mode
  rts_on_send : Rs485Mode
  rts_after_send : Rs485Mode

-- `mb_rtu_serial_config_t`, its numbers in a record of their own.
pub record PortConfig : Type 0 where
  pub device : Text
  pub serial : SerialConfig
  pub rs485_mode : Rs485Mode

-- `struct timespec`
pub record Timespec : Type 0 where
  pub tv_sec : ℕ
  pub tv_nsec : ℕ

-- `mb_rtu_shared_bus_t`, with the address of the object.
pub record Bus : Type 0 where
  pub address : ℕ
  pub path : Text
  pub fd : ℕ
  pub refcnt : ℕ
  pub baud_rate : ℕ
  pub data_bits : ℕ
  pub stop_bits : ℕ
  pub parity : Parity
  pub rs485_mode : Rs485Mode
  pub t35 : ℕ
  pub has_last_transaction : Bool
  pub last_unit_id : ℕ
  pub last_release_time : Timespec

-- The list `shared_buses`, and the serial ports that are open.
pub record Registry : Type 0 where
  pub buses : List Bus
  pub ports : List ℕ

unfoldable pub effective_baud_rate : ℕ → ℕ
effective_baud_rate baud_rate = if baud_rate == 0 then 9600 else baud_rate

-- `PATH_MAX` of Linux.
abbrev pub path_max : ℕ
path_max = 4096

-- `resolved` is what `realpath` finds, if it does.
unfoldable pub resolve_bus_key : Option Text → Text → Option Text
resolve_bus_key (some key) device = some key
resolve_bus_key none device = if leb path_max (length device) then none else some device

unfoldable pub find_bus_locked : Text → List Bus → Option Bus
find_bus_locked key [] = none
find_bus_locked key (bus ∷ rest) =
    if same_text bus.path key then some bus else find_bus_locked key rest

abbrev pub same_parity : Parity → Parity → Bool
same_parity none_parity none_parity = true
same_parity even even = true
same_parity odd odd = true
same_parity _ _ = false

abbrev pub same_mode : Rs485Mode → Rs485Mode → Bool
same_mode untouched untouched = true
same_mode rts_on_send rts_on_send = true
same_mode rts_after_send rts_after_send = true
same_mode _ _ = false

unfoldable pub bus_settings_match : Bus → PortConfig → Bool
bus_settings_match bus port =
    (bus.baud_rate == effective_baud_rate port.serial.baud_rate)
    && (bus.data_bits == effective_data_bits port.serial.data_bits)
    && (bus.stop_bits == effective_stop_bits port.serial.stop_bits)
    && same_parity bus.parity port.serial.parity
    && same_mode bus.rs485_mode port.rs485_mode

-- What the system answers while a bus is opened: the object's address, the port, and whether its
-- mutex was made.
pub record Opening : Type 0 where
  pub allocated : Option ℕ
  pub opened : Option ℕ
  pub mutex_made : Bool

-- The new record, whose fields `calloc` has cleared.
abbrev pub new_bus : ℕ → ℕ → Text → PortConfig → Bus
new_bus address fd key port = record {
  address = address;
  path = key;
  fd = fd;
  refcnt = 0;
  baud_rate = effective_baud_rate port.serial.baud_rate;
  data_bits = effective_data_bits port.serial.data_bits;
  stop_bits = effective_stop_bits port.serial.stop_bits;
  parity = port.serial.parity;
  rs485_mode = port.rs485_mode;
  t35 = t35_us (some port.serial);
  has_last_transaction = false;
  last_unit_id = 0;
  last_release_time = record { tv_sec = 0; tv_nsec = 0 };
}

-- `mb_rtu_close`: the port is closed.
unfoldable pub close_port : ℕ → List ℕ → List ℕ
close_port fd [] = []
close_port fd (p ∷ rest) = if p == fd then rest else p ∷ close_port fd rest

unfoldable pub open_bus_locked : Opening → Text → PortConfig → Registry → Option Bus × Registry
open_bus_locked o key port reg = elim o.allocated [
  | none ↦ (none, reg)
  | some address ↦ elim o.opened [
    | none ↦ (none, reg)
    | some fd ↦
        if o.mutex_made
        then (
          some (new_bus address fd key port),
          record { buses = new_bus address fd key port ∷ reg.buses; ports = fd ∷ reg.ports },
        )
        else (none, record { buses = reg.buses; ports = close_port fd (fd ∷ reg.ports) })
  ]
]

-- A write through a pointer to a bus.
unfoldable pub update_bus : ℕ → (Bus → Bus) → List Bus → List Bus
update_bus address f [] = []
update_bus address f (bus ∷ rest) =
    if bus.address == address then f bus ∷ rest else bus ∷ update_bus address f rest

-- A read through a pointer to a bus; `none` is a dangling pointer.
unfoldable pub get_bus : ℕ → List Bus → Option Bus
get_bus address [] = none
get_bus address (bus ∷ rest) = if bus.address == address then some bus else get_bus address rest

abbrev pub with_refcnt : ℕ → Bus → Bus
with_refcnt n bus = record bus { refcnt = n }

-- `bus->refcnt++`, where there is a bus.
abbrev pub count_up : Option Bus × Registry → Option Bus × Registry
count_up (none, reg) = (none, reg)
count_up (some bus, reg) = (
  some (with_refcnt (u32 (bus.refcnt + 1)) bus),
  record {
    buses = update_bus bus.address (with_refcnt (u32 (bus.refcnt + 1))) reg.buses;
    ports = reg.ports;
  },
)

unfoldable pub shared_bus_attach :
    Option Text → Opening → PortConfig → Registry → Option Bus × Registry
shared_bus_attach resolved o port reg = elim (resolve_bus_key resolved port.device) [
  | none ↦ (none, reg)
  | some key ↦ count_up (elim (find_bus_locked key reg.buses) [
    | some bus ↦ if bus_settings_match bus port then (some bus, reg) else (none, reg)
    | none ↦ open_bus_locked o key port reg
  ])
]

-- The loop that takes the bus out of the list.
unfoldable pub unlink_bus : ℕ → List Bus → List Bus
unlink_bus address [] = []
unlink_bus address (bus ∷ rest) =
    if bus.address == address then rest else bus ∷ unlink_bus address rest

-- `none` is an access through a dangling pointer.
unfoldable pub shared_bus_detach : ℕ → Registry → Option Registry
shared_bus_detach address reg = elim (get_bus address reg.buses) [
  | none ↦ none
  | some bus ↦
      let left = if ltb 0 bus.refcnt then bus.refcnt - 1 else bus.refcnt in
      some (
        if left == 0
        then record { buses = unlink_bus address reg.buses; ports = close_port bus.fd reg.ports }
        else record { buses = update_bus address (with_refcnt left) reg.buses; ports = reg.ports })
]

-- The microseconds that `wait_bus_silence` sleeps, at the time that it reads.
unfoldable pub wait_bus_silence : Bus → ℕ → ℕ → ℕ → Timespec → ℕ
wait_bus_silence bus unit_id inter_frame_us handoff_ms now =
    let handoff_us = handoff_ms * 1000 in
    let required_us =
      if not (bus.last_unit_id == unit_id) && ltb inter_frame_us handoff_us
      then handoff_us
      else inter_frame_us in
    let last = bus.last_release_time in
    let gained = (now.tv_nsec - last.tv_nsec) / 1000 in
    let lost = (last.tv_nsec - now.tv_nsec) / 1000 in
    let later_us = now.tv_sec * 1000000 + gained in
    let earlier_us = last.tv_sec * 1000000 + lost in
    if not bus.has_last_transaction || required_us == 0
    then 0
    else if leb earlier_us later_us && ltb (later_us - earlier_us) required_us
    then required_us - (later_us - earlier_us)
    else 0

unfoldable pub mark_bus_transaction_done : Timespec → ℕ → Bus → Bus
mark_bus_transaction_done now unit_id bus = record bus {
  last_release_time = now;
  last_unit_id = unit_id;
  has_last_transaction = true;
}

-- With bytes for the settings and frames of up to 256 bytes, the `uint64_t` does not wrap.
unfoldable pub frame_wire_time_us : Bus → ℕ → ℕ
frame_wire_time_us bus nbytes =
    let char_bits = 1 + bus.data_bits + bus.stop_bits + parity_bits bus.parity in
    (char_bits * nbytes * 1000000 + bus.baud_rate - 1) / bus.baud_rate
