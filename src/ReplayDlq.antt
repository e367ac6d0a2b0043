-- ===== src/ReplayDlq.antt =====
-- scripts/replay-dlq.ts: the arguments, and the handler of each parked record.
-- `JSON.parse` of a record is a parameter; sending to a topic is taken to succeed. The connections to
-- the broker are KafkaJS's.
pub mod Laws
mod Tests
use ryd_trip.Prelude.{
  ℕ, ◌+◌, String, Bool, true, false, Option, none, some, List, [], ◌∷◌, leb, str_eq, if◌then◌else◌,
}
use ryd_trip.Exec.{Result, ok, err}
use ryd_trip.EventSchema.{EventEnvelope}
use ryd_trip.EventSchema.EventConsumer.{DlqRecord, text_value}

pub record Args : Type 0 where
  pub topic : String
  pub brokers : String
  pub dry_run : Bool

pub record PartialArgs : Type 0 where
  pub topic : Option String
  pub brokers : Option String
  pub dry_run : Bool

-- One argument that takes no value, or whose value is missing.
abbrev read_last : String → PartialArgs → PartialArgs
read_last arg args =
    if str_eq arg "--topic"
    then record args { topic = none }
    else if str_eq arg "--brokers"
    then record args { brokers = none }
    else if str_eq arg "--dry-run"
    then record args { dry_run = true }
    else args

-- `for (let i = 0; i < argv.length; i++)`, where `argv[++i]` takes the next argument too.
unfoldable pub read_args : List String → PartialArgs → PartialArgs
read_args [] args = args
read_args (arg ∷ []) args = read_last arg args
read_args (arg ∷ value ∷ rest) args =
    if str_eq arg "--topic"
    then read_args rest (record args { topic = some value })
    else if str_eq arg "--brokers"
    then read_args rest (record args { brokers = some value })
    else if str_eq arg "--dry-run"
    then read_args (value ∷ rest) (record args { dry_run = true })
    else read_args (value ∷ rest) args

pub data UsageError : Type 0 where
  usage : UsageError

abbrev or_else : Option String → Option String → String
or_else none none = "localhost:9094"
or_else none (some env) = env
or_else (some b) env = b

-- The second argument is the variable KAFKA_BROKERS.
unfoldable pub parse_args : List String → Option String → Result UsageError Args
parse_args argv kafka_brokers =
    let args = read_args argv (record { topic = none; brokers = none; dry_run = false }) in
    elim (text_value args.topic) [
      | none ↦ err usage
      | some t ↦ ok (record {
        topic = t;
        brokers = or_else args.brokers kafka_brokers;
        dry_run = args.dry_run;
      })
    ]

-- A message that was sent back to its topic.
pub record Replayed (P : Type 0) : Type 0 where
  pub topic : String
  pub key : Option String
  pub envelope : EventEnvelope P

-- The counters, the messages sent, the last first, and whether the promise is resolved.
pub record Replay (P : Type 0) : Type 0 where
  pub seen : ℕ
  pub replayed : ℕ
  pub skipped : ℕ
  pub sent : List (Replayed P)
  pub resolved : Bool

abbrev pub started : {P : Type 0} → Replay P
started = record { seen = 0; replayed = 0; skipped = 0; sent = []; resolved = false }

module _ {P : Type 0} (parse : String → Option (DlqRecord P)) (dry_run : Bool)
    (high_watermark : ℕ) where
  unfoldable pub replay_record : DlqRecord P → Replay P → Replay P
  replay_record r s = elim r.envelope [
    | none ↦ record s { skipped = s.skipped + 1 }
    | some e ↦ if dry_run then record s { replayed = s.replayed + 1 } else record s {
      replayed = s.replayed + 1;
      sent = (record { topic = r.original_topic; key = r.original_key; envelope = e }) ∷ s.sent;
    }
  ]

  -- `if (seen >= highWatermark) resolve()`.
  unfoldable pub check_end : Replay P → Replay P
  check_end s = if leb high_watermark s.seen then record s { resolved = true } else s

  -- The handler of one message, given its value.
  unfoldable pub each_message : Option String → Replay P → Replay P
  each_message value s =
      let counted : Replay P = record s { seen = s.seen + 1 } in
      elim (text_value value) [
        | none ↦ counted
        | some raw ↦ elim (parse raw) [
          | none ↦ record counted { skipped = counted.skipped + 1 }
          | some r ↦ check_end (replay_record r counted)
        ]
      ]

  unfoldable pub replay : List (Option String) → Replay P → Replay P
  replay [] s = s
  replay (m ∷ ms) s = replay ms (each_message m s)
