-- ===== src/Tcp.antt =====
-- Modbus TCP: the receive loop that both sides share, the server of src/modbus_tcp_server.c and the
-- client of src/modbus_tcp_client.c.
pub mod Stream
pub mod Server
pub mod Client
pub mod Frames
pub mod Thread
pub mod Connect
pub mod Life
pub mod Endpoints
pub mod Reads
pub mod Writes
pub mod Tests
