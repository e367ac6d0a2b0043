-- ===== src/EventSchema/KafkaTopics.antt =====
-- libraries/event-schema/src/kafka/topics.ts: the topics that the modelled services use.
use ryd_trip.Prelude.{String}

abbrev pub ride_requested : String
ride_requested = "ride.requested"

abbrev pub ride_cancelled : String
ride_cancelled = "ride.cancelled"

abbrev pub driver_location_updated : String
driver_location_updated = "driver.location.updated"

abbrev pub driver_reserved : String
driver_reserved = "driver.reserved"

abbrev pub driver_rejected : String
driver_rejected = "driver.rejected"
