-- ===== src/Bridge.antt =====
-- The MIoT bridge (apis/miot-bridge-api): the notifications that it publishes, its topics, and the
-- commands that it sends to devices.
pub mod Dispatch
pub mod Spec
pub mod Service
pub mod Commands
pub mod Reading
