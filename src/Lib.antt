-- ===== src/Lib.antt =====
-- RydTrip: a ride-hailing backend of small services behind a gateway, in TypeScript.
--
-- A request passes the gateway's rate limit and its authentication and is forwarded to a service. The
-- rider service publishes `ride.requested`; the trip service stores the ride, and the dispatch service
-- reserves a nearby driver in Redis and publishes `driver.reserved` or `driver.rejected`, which the trip
-- service consumes. The driver accepts, arrives, starts the trip with the rider's pickup code, and
-- completes it, by requests to the trip service, which tells the driver service each change of status.
--
-- Which file models which part:
--   EventSchema                     libraries/event-schema/src/enums.ts, entities.ts, events.ts
--   EventSchema/KafkaTopics         libraries/event-schema/src/kafka/topics.ts
--   EventSchema/EventConsumer       libraries/event-schema/src/kafka/consumer.ts: `run`, `parkOnDlq`
--   CircuitBreaker                  libraries/circuit-breaker/src/circuit-breaker.ts
--   RedisClient, RedisClient/Positions, RedisClient/Online
--                                   libraries/redis-client/src: reservations, the ledger of processed
--                                   events, and the index of drivers' positions
--   Gateway/Pattern                 the regular expressions that the gateway's tables use
--   Gateway/Routes                  services/api-gateway/src/proxy/routes.ts
--   Gateway/RateLimit               services/api-gateway/src/rate-limit/rate-limit.guard.ts
--   Gateway/JwtAuthGuard            services/api-gateway/src/auth/jwt-auth.guard.ts
--   Gateway/ProxyController         services/api-gateway/src/proxy/proxy.controller.ts, behind the guards in
--                                   the order of app.module.ts
--   TripService/RideStateMachine    services/trip-service/src/trips/ride-state-machine.ts
--   TripService/Repository          services/trip-service/src/trips/trips.repository.ts
--   TripService/Service             services/trip-service/src/trips/trips.service.ts
--   TripService/Service/Requests    services/trip-service/src/trips/trips.controller.ts, as one type of
--                                   requests with the events of the consumer
--   TripService/History             the list queries of trips.repository.ts, trips.service.ts and
--                                   trips.controller.ts
--   TripService/RideEventsConsumer  services/trip-service/src/trips/ride-events.consumer.ts
--   DispatchService                 services/dispatch-service/src/dispatch/dispatch.service.ts and
--                                   ride-requested.consumer.ts
--   DriverService                   services/driver-service/src/drivers; DriverService/Drivers/Sessions
--                                   joins the login of a driver with the gateway's guard
--   EventSchema/EventPublisher      libraries/event-schema/src/kafka/publisher.ts: `publish`
--   RiderService/Riders             services/rider-service/src/riders
--   RiderService/Rides              services/rider-service/src/rides/rides.service.ts
--   LocationService                 services/location-service/src/locations/locations.service.ts
--   ReplayDlq                       scripts/replay-dlq.ts
--   RideStore                       apps/web/src/stores/useRideStore.ts
--   Web/Pricing, Web/Rides          apps/web/src/api/rides.ts
--   Web/DriverStore                 apps/web/src/stores/useDriverStore.ts
--   Web/AuthStore, Web/ApiClient    apps/web/src/stores/useAuthStore.ts and apps/web/src/api/client.ts
--   Web/BookingStore, Web/ToastStore
--                                   apps/web/src/stores: useBookingStore.ts and useToastStore.ts
--   Web/RequireAuth                 apps/web/src/components/auth/RequireAuth.tsx
--   Web/Geocoding                   apps/web/src/api/geocoding.ts
--   Web/DriverDocuments             apps/web/src/utils/driverDocuments.ts
--   Web/Endpoints                   apps/web/src/api: drivers.ts, riders.ts, trips.ts and rides.ts
--   Web/Websocket                   apps/web/src/websocket: events.ts, reconnect.ts, client.ts
-- Prelude, Exec and Tables are shared: names and lemmas, the monad of code that changes a state and
-- may throw, and the interface of a database's table. The files under a component's folder hold its
-- theorems; the `Tests` files run the definitions on concrete data.
--
-- How state is modelled: a service's state is a record (`World`, `Consumer`, `CircuitBreaker`), a method
-- is a function on it that returns a `Result` and the next state, and a method that throws returns the
-- state as it is then. A transaction that throws gives back the tables of its start. Times are numbers
-- of milliseconds, and each reading of the clock is an argument or the next reading of a given clock.
-- Where the code treats a `null` of a body or of a payload unlike a field that is left out, so do the
-- models: `ReasonValue` for the reason of a cancellation, `Field` for the updates of profiles.
--
-- What is a parameter: the tables of PostgreSQL (`Tables.UniqueTable`, and `Tables.Accounts` for
-- those with unique phones and emails, and `Tables.Listing` for ordered searches), bcrypt and the
-- JWT library (`Credentials`) and the keys of Redis (`RedisClient.Redis`), each an interface with
-- laws that Tables/Memory, Tables/Accounts/Memory, Tables/Listing/Memory, Credentials/Plain and
-- RedisClient/Memory meet; the verification of a token, `JSON.parse`, `randomUUID`, `randomInt`,
-- `Math` and floating point numbers, the answers of other services, and the search of GEOSEARCH.
-- Redis commands of the dispatch service and the publishing of events may fail; sending to the dead
-- letter topic, and from there back to a topic, is taken to succeed.
--
-- Bounds and fuel: the loop over attempts recurses on the number of attempts that are left, which is
-- `maxAttempts` at its start; all other loops recurse on their lists. No function runs out of fuel.
--
-- What is not modelled: the wiring of NestJS, metrics and tracing, the pages of the web
-- application, and its calls GET /trips/:id and GET /trips/:id/otp at the guard. Actions of the
-- driver's store are not interleaved within their awaits.
mod Prelude
pub mod Exec
pub mod EventSchema
pub mod Tables
pub mod Credentials
pub mod CircuitBreaker
pub mod Gateway
pub mod TripService
pub mod RedisClient
pub mod DispatchService
pub mod DriverService
pub mod RiderService
pub mod ReplayDlq
pub mod LocationService
pub mod RideStore
pub mod Web
