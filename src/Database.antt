-- ===== src/Database.antt =====
-- src/database: the migrations, the schema, and the repositories of devices and readings.
pub mod Migrations
pub mod Schema
pub mod Columns
pub mod Devices
pub mod Sensors
