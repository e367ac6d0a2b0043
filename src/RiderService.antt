-- ===== src/RiderService.antt =====
-- services/rider-service: the requests that start and cancel rides.
pub mod Riders
pub mod Rides
mod Tests
