-- ===== src/Pdu/RoundTrip.antt =====
-- From a client's call through the server's callback and back: what arrives is what was sent.
pub mod Reads
pub mod Writes
