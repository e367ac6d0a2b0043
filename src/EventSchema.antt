-- ===== src/EventSchema.antt =====
-- libraries/event-schema/src/enums.ts, entities.ts, events.ts.
-- `N` stands for JavaScript's numbers, which are coordinates, fares and distances here.
pub mod KafkaTopics
pub mod EventConsumer
pub mod EventPublisher
use ryd_trip.Prelude.{ℕ, String, Option}

pub data DriverStatus : Type 0 where
  offline available reserved on_trip suspended : DriverStatus

unfoldable pub DriverStatus-discrete : Discrete DriverStatus
DriverStatus-discrete = hlevel

pub data RideStatus : Type 0 where
  requested matching matched driver_arriving driver_arrived in_progress completed cancelled :
      RideStatus

unfoldable pub RideStatus-discrete : Discrete RideStatus
RideStatus-discrete = hlevel

pub data CancellationReason : Type 0 where
  rider_cancelled driver_cancelled no_drivers_available rider_no_show system_cancelled :
      CancellationReason

-- A text in the column of the reason, which takes any: the enum is not checked on every way there.
pub data ReasonText : Type 0 where
  listed : CancellationReason → ReasonText
  unlisted : String → ReasonText

-- What JSON may hold as a `reason`: nothing, a value that is falsy such as `null`, a text that is not
-- empty, or a truthy value that is no text.
pub data ReasonValue : Type 0 where
  undefined falsy not_text : ReasonValue
  reason_text : ReasonText → ReasonValue

module _ (N : Type 0) where
  pub record GeoPoint : Type 0 where
    pub lat : N
    pub lng : N

  -- Dates are numbers of milliseconds.
  pub record Ride : Type 0 where
    pub id : String
    pub rider_id : String
    pub driver_id : Option String
    pub pickup : GeoPoint
    pub destination : GeoPoint
    pub status : RideStatus
    pub cancellation_reason : Option ReasonText
    pub fare : Option N
    pub distance_km : Option N
    pub created_at : ℕ
    pub updated_at : ℕ

pub record EventEnvelope (P : Type 0) : Type 0 where
  pub event_id : String
  pub event_type : String
  pub version : ℕ
  pub timestamp : ℕ
  pub correlation_id : String
  pub producer : String
  pub payload : P
