-- ===== src/TripService.antt =====
-- services/trip-service/src/trips: the ride's state machine, its rows, and the operations on them.
pub mod RideStateMachine
pub mod Repository
pub mod Service
pub mod History
pub mod RideEventsConsumer
mod Tests
