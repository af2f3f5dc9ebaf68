-- ===== src/Lib.antt =====
-- A model of Modbus_Protocol, a Modbus library in C, and the theorems that make it correct.
--
-- The program has three layers. The PDU layer (src/modbus_pdu.c) builds, checks and dispatches the
-- function codes FC01 to FC06, FC15 and FC16, the same for both transports. The framing layers put
-- a PDU into an RTU frame (unit id, PDU, CRC-16; src/modbus_rtu.c) or a TCP frame (MBAP header).
-- The servers and clients on top assemble frames from a byte stream and pass the PDUs on; the
-- application's callbacks lie behind the server's dispatch.
--
-- Files and code:
--   Pdu/Codes       the constants of include/modbus_defines.h
--   Pdu/Wire        get_u16, put_u16, pack_bits, unpack_bits, build_exception,
--                   exception_from_callback_rc, build_write_echo and the loops over registers
--   Pdu/Build       mb_pdu_build_read, _write_single, _write_registers, _write_coils
--   Pdu/Check       mb_pdu_check_response, mb_pdu_get_registers, mb_pdu_get_bits, mb_pdu_is_write
--   Pdu/Serve       mb_pdu_handlers_t, the handle_* functions and mb_pdu_handle_request
--   Pdu/Dispatch    the contract of mb_pdu_handle_request; below it, one module for each use of it
--   Pdu/RoundTrip   a client's request, the server's reply and the client's extraction, composed
--   Rtu/Crc         mb_rtu_crc16, mb_rtu_append_crc, mb_rtu_validate_crc
--   Rtu/Request     mb_rtu_build_request_basis, _fc06_request, _fc16_request,
--                   mb_rtu_parse_request, mb_rtu_build_read_registers_response
--   Rtu/Timing      mb_rtu_t35_us, mb_rtu_effective_timing
--   Rtu/Server      src/modbus_rtu_server.c: get_complete_request_len, drop_rx_bytes,
--                   extract_request_frame, unit_id_matches, server_on_process
--   Rtu/Line        src/modbus_rtu_client.c: wait_readable, read_exact_timeout, write_all
--   Rtu/Bus         the registry of shared buses: resolve_bus_key, find_bus_locked,
--                   bus_settings_match, open_bus_locked, shared_bus_attach, shared_bus_detach,
--                   wait_bus_silence, mark_bus_transaction_done, frame_wire_time_us
--   Rtu/Port        src/modbus_rtu.c: baud_to_speed, configure_serial, configure_rs485, mb_rtu_open,
--                   mb_rtu_start, mb_rtu_stop
--   Rtu/Serving     mb_rtu_thread; src/modbus_rtu_server.c: wait_response_silence, write_all,
--                   discard_echo, mb_rtu_server_config_init, mb_rtu_server_start,
--                   mb_rtu_server_stop
--   Rtu/Response    src/modbus_rtu_client.c: recv_response
--   Rtu/Client      its transact; below it, Rtu/Client/Api has the public calls and
--                   Rtu/Client/Connect mb_rtu_client_connect, mb_rtu_client_disconnect, and programs
--                   of them as a step relation
--   Rtu/Exchange, Rtu/Reads, Rtu/Writes
--                   a transaction, and a read and a write of registers, over RTU, client and server
--                   composed
--   Tcp/Stream      recv_exact of src/modbus_tcp_server.c and src/modbus_tcp_client.c
--   Tcp/Server      src/modbus_tcp_server.c: server_on_process
--   Tcp/Client      src/modbus_tcp_client.c: next_tid, effective_response_timeout_ms, wait_readable,
--                   recv_response, transact; below it, Tcp/Client/Api has the public calls
--   Tcp/Reads, Tcp/Writes
--                   a read and a write of registers over TCP, client and server composed
--   Tcp/Frames      src/modbus_tcp.c: mb_tcp_build_request_basis, _fc06_request, _fc16_request,
--                   mb_tcp_parse_request, mb_tcp_build_read_registers_response, mb_tcp_send_all
--   Tcp/Thread      src/modbus_tcp.c: mb_tcp_server_thread with its table of clients,
--                   mb_tcp_client_thread
--   Tcp/Life        mb_tcp_start, mb_tcp_listen_init, mb_tcp_stop
--   Tcp/Connect     mb_tcp_connect
--   Tcp/Endpoints   mb_tcp_server_config_init, mb_tcp_server_start, mb_tcp_server_stop,
--                   mb_tcp_client_connect, mb_tcp_client_disconnect
--   Prelude         what these share: lists, texts, arrays, words, bits, Boolean tests
--
-- How the state corresponds: an array is a function from the index to the element (Prelude/Memory);
-- a write through a pointer returns the new array; a pointer that may be null is an option; a C
-- `int` result is a ℤ, and the casts to 8, 16 and 32 bits are written out as remainders. The state
-- behind `userdata` is a parameter, which the callbacks take and return; `junk` is what a local
-- array holds before anything is written to it, and every theorem holds for all of it. The receive
-- state of the RTU server is the record Rx. The registry of buses is a list of records with the
-- addresses of the objects, and a pointer to a bus is such an address, so that a dangling pointer
-- shows; the serial ports and the sockets that are open are lists of descriptors.
--
-- Fuel: the loop of extract_request_frame, `for (;;)`, runs on one round more than there are bytes
-- in the receive buffer. Each round but the last drops one byte, and with less than two bytes the
-- loop ends, so it is enough; Rtu/Server/Contract proves that the result is always there. The loop
-- of transact over responses runs on one round more than there are results of `poll`, of which each
-- round but the last takes one, before its deadline; Tcp/Client/Contract proves it enough. All other loops are
-- structural, those over recv, send, read and poll on the list of what the calls return.
--
-- Parameters: the application's callbacks, the clock, what each call of `read`, `write`, `recv`,
-- `send`, `poll`, `select` and `accept` does, and, for the servers and the TCP client, the result of
-- sending a frame; for a start or a connect, the results of `malloc`, `pthread_mutex_init`,
-- `pthread_create`, `realpath` and of the calls that open a socket or a port. A call of `read`, `recv`,
-- `send` or `write` yields what it has, and at most what the code asks it for. IsFresh (Rtu/Client/Connect) and ObeysAll (Tcp/Thread/Runs) state that the system does not hand
-- out a descriptor or an address that is in use.
--
-- Not modelled: log calls and their formatting, hooks without effect on the state, and socket
-- options. What is done under a mutex is one step of the model; what a thread does between start and
-- stop is a list of rounds or turns. The waits of a turn of the RTU server and the echo that it
-- discards are functions beside the turn, whose state they leave alone.
pub mod Prelude
pub mod Pdu
pub mod Rtu
pub mod Tcp
