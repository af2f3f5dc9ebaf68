-- ===== src/Pdu.antt =====
-- src/modbus_pdu.c, the layer that both transports share: a PDU is a function code and its data.
pub mod Codes
pub mod Wire
pub mod Build
pub mod Check
pub mod Serve
pub mod Dispatch
pub mod RoundTrip
pub mod Tests
