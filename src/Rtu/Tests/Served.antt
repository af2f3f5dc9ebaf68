-- ===== src/Rtu/Tests/Served.antt =====
-- The thread of the server of Rtu/Tests, and the life of its port.
use modbus_protocol.Prelude.{ℕ, pos, ◌≡◌, ◌≢◌, ◌≤◌, ◌⊎◌, arith, true, false, some, List, [], ◌∷◌}
use modbus_protocol.Rtu.Server.{Rx, ReadResult}
use modbus_protocol.Rtu.Bus.{untouched, PortConfig}
use modbus_protocol.Rtu.Port.{PortAnswers, PortHeld, idle_ctx, rtu_start, rtu_stop}
use modbus_protocol.Rtu.Port.Released.{served_by, rtu_stop-rtu_start}
use modbus_protocol.Rtu.Serving.{rtu_thread}
use modbus_protocol.Rtu.Serving.Bounds.{rtu_thread-IsBounded}
use modbus_protocol.Rtu.Tests.{zeros, serial, config, delivered, idle, two_pieces}

-- The request arrives in the first turn, and nothing in the second.
abbrev turns : List (List ReadResult × ℕ)
turns = (two_pieces, 1000) ∷ ([], 2000) ∷ []

rtu_thread-IsBounded_example :
    (after : Rx × ℕ) × (rtu_thread config zeros zeros delivered zeros turns idle 0 ≡ some after)
    × (after.0.rx_len ≤ 256)
rtu_thread-IsBounded_example =
    rtu_thread-IsBounded config zeros zeros delivered zeros turns idle 0 (omega arith)

abbrev port : PortConfig
port = record { device = 47 ∷ 100 ∷ []; serial = serial; rs485_mode = untouched }

abbrev answers : PortAnswers
answers = record {
  lock_made = true;
  opened = some 4;
  attributes_set = true;
  rs485_rc = pos 0;
  nonblocking = true;
  thread_made = true;
}

abbrev nothing : PortHeld
nothing = record { ports = []; locks = 0; threads = 0; log = [] }

rtu_stop-rtu_start_example :
    let r = rtu_start answers idle_ctx (some (47 ∷ 100 ∷ [])) port nothing in
    let s = rtu_stop r.1 r.2 in
    ((r.0 ≢ pos 0) × (r.2 ≡ nothing) × ((r.1 ≡ idle_ctx) ⊎ (r.1.initialized ≡ false)))
    ⊎ ((fd : ℕ) × (r.0 ≡ pos 0)
        × (r.1.initialized ≡ true)
        × (r.1.keep_running ≡ true)
        × (r.1.serial_fd ≡ some fd)
        × (r.2 ≡ served_by fd nothing)
        × (s.0.initialized ≡ false)
        × (s.1 ≡ record nothing { log = (fd, false) ∷ (fd, true) ∷ [] }))
rtu_stop-rtu_start_example = rtu_stop-rtu_start answers idle_ctx (some (47 ∷ 100 ∷ [])) port nothing
