-- ===== src/Drivers.antt =====
-- crates/kernel/src/drivers.rs and its drivers: registers of devices in memory. `DeviceDriver` is the pair of
-- functions `compatible_with` and `from_node` of each driver.
pub mod Node
pub mod Plic
pub mod Uart
mod Tests
