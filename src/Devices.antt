-- ===== src/Devices.antt =====
-- src/devices: the heartbeat monitor and the device manager.
pub mod Heartbeat
pub mod Manager
