-- ===== src/Io.antt =====
-- handlers/io: devices on buses, their commands and their status.
pub mod Bus
pub mod Soft
pub mod Equality
pub mod Devices
pub mod Status
pub mod Handler
pub mod Softly
pub mod Remembering
pub mod Keeping
pub mod Dispatching
pub mod Switching
pub mod Teardown
pub mod Platform
pub mod Modbus
pub mod Mapped
pub mod Unipi
pub mod Gpio
pub mod W1
pub mod Snapcast
pub mod Contract
