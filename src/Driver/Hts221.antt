-- ===== src/Driver/Hts221.antt =====
-- src/driver/sensor/hts221: a temperature and humidity sensor on an I2C bus. Every call of the I2C actor is
-- awaited before the next, so a call is what it does to the bus.
pub mod Register
pub mod Ctrl1
pub mod Ctrl2
pub mod Ctrl3
pub mod Calibration
pub mod Sensor
pub mod Ready
pub mod RoundTrip
pub mod Simulated
mod Tests
