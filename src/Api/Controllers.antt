-- ===== src/Api/Controllers.antt =====
-- src/api/controllers: what the handlers of the routes do.
pub mod Auth
pub mod Devices
pub mod Automation
pub mod Sensors
pub mod Status
