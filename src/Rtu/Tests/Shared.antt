-- ===== src/Rtu/Tests/Shared.antt =====
-- Two clients of src/modbus_rtu_client.c that share a port.
use modbus_protocol.Prelude.{
  ℕ, ℤ, pos, ◌≡◌, ◌≢◌, ◌⊎◌, ◌+◌, ◌-◌, ◌*◌, ◌<◌, ◌≤◌, refl, arith, true, false, some, none, [], ◌∷◌,
  same_text,
}
use modbus_protocol.Rtu.Bus.{
  Bus, Registry, Timespec, resolve_bus_key, find_bus_locked, bus_settings_match,
  effective_baud_rate, open_bus_locked, update_bus, get_bus, shared_bus_attach, wait_bus_silence,
}
use modbus_protocol.Rtu.Bus.Silence.{nanoseconds, wait_bus_silence-IsSilent}
use modbus_protocol.Rtu.Client.{RtuClientConfig, RtuClientCtx}
use modbus_protocol.Rtu.Client.Connect.{
  Answers, System, Step, connects, here, next, IsInitial, after_connect, rtu_client_connect,
  connect_device, rtu_client_disconnect,
}
use modbus_protocol.Rtu.Client.Connect.Attached.{Inv}
use modbus_protocol.Rtu.Client.Connect.Invariant.{rtu_client_disconnect_defined, Reach-Inv}
use modbus_protocol.Rtu.Client.Connect.Failure.{rtu_client_connect_failed}
use modbus_protocol.Rtu.Timing.{effective_data_bits, effective_stop_bits}
use modbus_protocol.Rtu.Tests.Exchanged.{client, bus}

abbrev unconnected : RtuClientCtx
unconnected = record { initialized = false; shared_bus = none; fd = none; cfg = client.cfg }

abbrev answers : Answers
answers = record {
  resolved = none;
  lock_made = true;
  opening = record { allocated = some 0x2000; opened = some 7; mutex_made = true };
}

abbrev at_start : System
at_start = record {
  registry = record { buses = []; ports = [] };
  clients = unconnected ∷ unconnected ∷ [];
}

-- Both connect to the same device.
abbrev one_connected : System
one_connected =
    after_connect at_start 0
      (rtu_client_connect answers unconnected (some client.cfg) at_start.registry)

abbrev another : Answers
another = record {
  resolved = none;
  lock_made = true;
  opening = record { allocated = some 0x3000; opened = some 8; mutex_made = true };
}

abbrev both_connected : System
both_connected =
    after_connect one_connected 1
      (rtu_client_connect another unconnected (some client.cfg) one_connected.registry)

start_IsInitial : IsInitial at_start
start_IsInitial = record {
  no_buses = refl;
  no_ports = refl;
  unconnected = ((refl, refl), ((refl, refl), tt));
  few = omega arith;
}

first-Step : Step at_start one_connected
first-Step = connects 0 unconnected answers (some client.cfg) refl tt

second-Step : Step one_connected both_connected
unfolding rtu_client_connect connect_device shared_bus_attach resolve_bus_key find_bus_locked
    open_bus_locked update_bus
second-Step =
    connects 1 unconnected another (some client.cfg) refl
      ((λ e. ground arith, λ e. ground arith), tt)

-- The bus is opened once, and counts two.
counts_two :
    ◌≡◌ {A = ℕ}
      (elim (get_bus 0x2000 both_connected.registry.buses) [ none ↦ 0 | some b ↦ b.refcnt ])
      2
unfolding rtu_client_connect connect_device shared_bus_attach resolve_bus_key find_bus_locked
    same_text bus_settings_match effective_baud_rate effective_data_bits effective_stop_bits
    open_bus_locked update_bus get_bus
counts_two = refl

one_connected-Inv : Inv one_connected
one_connected-Inv = Reach-Inv start_IsInitial (next here first-Step)

Reach-Inv_example : Inv both_connected
Reach-Inv_example = Reach-Inv start_IsInitial (next (next here first-Step) second-Step)

abbrev first : RtuClientCtx
first = (rtu_client_connect answers unconnected (some client.cfg) at_start.registry).1

rtu_client_disconnect_defined_example :
    (after : RtuClientCtx × Registry) × (rtu_client_disconnect first one_connected.registry
      ≡ some after)
    × (after.0.initialized ≡ false)
    × (after.0.shared_bus ≡ none)
rtu_client_disconnect_defined_example =
    rtu_client_disconnect_defined one_connected 0 first one_connected-Inv refl

-- The same device at another speed.
abbrev faster : RtuClientConfig
faster = record client.cfg {
  serial = record {
    baud_rate = 19200;
    data_bits = 8;
    stop_bits = 1;
    parity = client.cfg.serial.parity;
  };
}

abbrev refused : ℤ × RtuClientCtx × Registry
refused = rtu_client_connect another unconnected (some faster) one_connected.registry

refused_lem : refused.0 ≢ pos 0
unfolding rtu_client_connect connect_device shared_bus_attach resolve_bus_key find_bus_locked
    same_text bus_settings_match effective_baud_rate effective_data_bits effective_stop_bits
    open_bus_locked update_bus get_bus
refused_lem e = ground arith

rtu_client_connect_failed_example :
    (refused.2 ≡ one_connected.registry)
    × ((refused.1 ≡ unconnected)
        ⊎ ((refused.1.initialized ≡ false) × (refused.1.shared_bus ≡ none)))
rtu_client_connect_failed_example =
    rtu_client_connect_failed another unconnected (some faster) one_connected.registry
      one_connected-Inv.apart refused_lem

-- A transaction with unit 3 ended 5 ms ago.
abbrev busy : Bus
busy = record bus {
  has_last_transaction = true;
  last_unit_id = 3;
  last_release_time = record { tv_sec = 9; tv_nsec = 999000000 };
}

abbrev now : Timespec
now = record { tv_sec = 10; tv_nsec = 4000000 }

waits : wait_bus_silence busy 17 4011 30 now ≡ 25000
unfolding wait_bus_silence
waits = refl

wait_bus_silence-IsSilent_example :
    let slept = wait_bus_silence busy 17 4011 30 now in
    let silent_ns = nanoseconds now + slept * 1000 - nanoseconds busy.last_release_time in
    (4011 * 1000 < silent_ns + 1000)
    × (busy.last_unit_id ≢ 17 → 30 * 1000000 < silent_ns + 1000)
    × ((slept ≤ 4011) ⊎ (busy.last_unit_id ≢ 17) × (slept ≤ 30 * 1000))
wait_bus_silence-IsSilent_example =
    wait_bus_silence-IsSilent busy 17 4011 30 now refl (omega arith) (omega arith) (omega arith)
