-- ===== src/DriverService.antt =====
-- services/driver-service: the transition table of a driver and the drivers' service.
pub mod DriverStateMachine
pub mod Drivers
mod Tests
