-- ===== src/ReplayDlq/Tests.antt =====
-- A replay of concrete records.
use ryd_trip.Prelude.{
  ℕ, ◌≡◌, ◌↔◌, refl, String, true, false, Option, none, some, [], ◌∷◌, ◌++◌, str_eq, if◌then◌else◌,
}
use ryd_trip.Exec.{ok}
use ryd_trip.EventSchema.{EventEnvelope}
use ryd_trip.EventSchema.EventConsumer.{DlqRecord, handler_failed}
use ryd_trip.ReplayDlq.{
  started, replay, parse_args, read_args, each_message, check_end, replay_record,
}
use ryd_trip.ReplayDlq.Laws.{IsReadable, replay_ends_iff}

abbrev envelope : EventEnvelope ℕ
envelope = record {
  event_id = "e1";
  event_type = "ride.requested";
  version = 1;
  timestamp = 5;
  correlation_id = "c1";
  producer = "rider-service";
  payload = 42;
}

abbrev parked : DlqRecord ℕ
parked = record {
  dlq_reason = handler_failed;
  consumer_group = "trip-service";
  original_topic = "ride.requested";
  original_partition = 0;
  original_offset = "3";
  original_key = some "r1";
  attempts = 3;
  error_message = "busy";
  failed_at = 9;
  envelope = some envelope;
  raw_value = none;
}

abbrev parse : String → Option (DlqRecord ℕ)
parse raw = if str_eq raw "{}" then some parked else none

two_arguments :
    parse_args ("--dry-run" ∷ "--topic" ∷ "trip-service.dlt" ∷ []) none
    ≡ ok (record { topic = "trip-service.dlt"; brokers = "localhost:9094"; dry_run = true })
unfolding parse_args read_args
two_arguments = refl

never_ends : (replay parse false 2 (some "{}" ∷ some "{" ∷ []) started).resolved ≡ false
unfolding replay each_message check_end replay_record
never_ends = refl

replay_ends_iff_example :
    ((replay parse false 2 ((some "{" ∷ []) ++ (some "{}" ∷ [])) started).resolved ≡ true)
    ↔ IsReadable parse false 2 (some "{}")
replay_ends_iff_example = replay_ends_iff parse false 2 (some "{" ∷ []) (some "{}") refl
