-- ===== src/Rtu.antt =====
-- Modbus RTU: the CRC, the frames and the serial timing of src/modbus_rtu.c, and the server of
-- src/modbus_rtu_server.c.
pub mod Crc
pub mod Request
pub mod Line
pub mod Bus
pub mod Timing
pub mod Server
pub mod Port
pub mod Serving
pub mod Response
pub mod Client
pub mod Exchange
pub mod Reads
pub mod Writes
pub mod Tests
