-- ===== src/Driver.antt =====
-- src/driver: the drivers.
pub mod Memory
pub mod Cell
pub mod Timer
pub mod Uart
pub mod Blinker
pub mod I2c
pub mod Pins
pub mod Hts221
pub mod Matrix
mod Tests
