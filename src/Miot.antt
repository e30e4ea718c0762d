-- ===== src/Miot.antt =====
-- The client library for miIO devices (packages/miot-device).
pub mod Clock
pub mod Error
pub mod Packet
pub mod Exchange
pub mod Io
pub mod Transport
pub mod Device
