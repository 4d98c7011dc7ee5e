-- ===== src/DeadLetters/Defs.antt =====
-- `class DeadLetterHandler`, over a broker that is a parameter: the channel of the AMQP client. Texts
-- are numbers, the empty or absent one is 0. Waiting between batches and logging are left out, and
-- nothing but the handler touches the queue during a call.
use mathlib.Core.Option
use siam_siam_ecosystem.Time.{Time, missing, at, no_date}
use siam_siam_ecosystem.Common.{
  ℕ, zero, suc, ◌+◌, Bool, true, false, not, Option, none, some, List, [], ◌∷◌, leb, ltb,
  if◌then◌else◌, or_default, truthy,
}

-- the texts 'unknown' and the name of the events exchange of the configuration
abbrev pub unknown : ℕ
unknown = 1

abbrev pub events_exchange : ℕ
events_exchange = 2

abbrev pub max_replay_attempts : ℕ
max_replay_attempts = 3

-- an entry of the header 'x-death'
pub record Death : Type 0 where
  pub reason : ℕ
  pub count : ℕ
  pub queue : ℕ
  pub exchange : ℕ
  pub routing_keys : List ℕ
  pub time : Time

-- A message; `deaths` is empty where the header is missing or no array, `replay_count` is 0 where
-- 'x-replay-count' is missing, and `valid` tells whether `JSON.parse` accepts the content.
pub record Message : Type 0 where
  pub message_id : ℕ
  pub routing_key : ℕ
  pub timestamp : Time
  pub deaths : List Death
  pub replay_count : ℕ
  pub replayed : Bool
  pub original_death_count : Option ℕ
  pub content : ℕ
  pub valid : Bool

pub record DeathInfo : Type 0 where
  pub reason : ℕ
  pub count : ℕ
  pub original_queue : ℕ
  pub original_exchange : ℕ
  pub original_routing_key : ℕ
  pub time : Option ℕ

abbrev pub first_key : List ℕ → ℕ
first_key [] = 0
first_key (k ∷ _) = k

-- the time of a death, or null where it is missing; the outer `none` is the `RangeError` of
-- `toISOString`
abbrev pub death_time : Time → Option (Option ℕ)
death_time missing = some none
death_time (at t) = some (some t)
death_time no_date = none

-- `new Date(timestamp).toISOString()`
abbrev pub iso_of : Time → Option ℕ
iso_of missing = none
iso_of (at t) = some t
iso_of no_date = none

abbrev pub last_info : Death → ℕ → Option ℕ → DeathInfo
last_info last_death routing_key time = record {
  reason = or_default last_death.reason unknown;
  count = or_default last_death.count 1;
  original_queue = or_default last_death.queue unknown;
  original_exchange = or_default last_death.exchange unknown;
  original_routing_key = or_default (first_key last_death.routing_keys) routing_key;
  time = time;
}

-- `_parseDeathInfo`, by the header; `none` is the `RangeError`
unfoldable pub death_info : List Death → ℕ → Option DeathInfo
death_info [] routing_key = some (record {
  reason = unknown;
  count = 1;
  original_queue = unknown;
  original_exchange = unknown;
  original_routing_key = routing_key;
  time = none;
})
death_info (last_death ∷ _) routing_key =
    Option.map (last_info last_death routing_key) (death_time last_death.time)

unfoldable pub parse_death_info : Message → Option DeathInfo
parse_death_info m = death_info m.deaths m.routing_key

-- a message as it is published
pub record Publication : Type 0 where
  pub exchange : ℕ
  pub routing_key : ℕ
  pub message : Message

-- the operations of the client's channel on one queue
pub record Broker : Type 1 where
  pub State : Type 0
  -- the messages that wait in the dead letter queue
  pub ready : State → List Message
  -- what was published on the channel, the oldest first
  pub published : State → List Publication
  pub get : State → Option Message × State
  -- `nack(msg, false, requeue)`
  pub nack : Message → Bool → State → State
  pub ack : Message → State → State
  -- `publish(exchange, routingKey, …)`, of the message with its new headers
  pub publish : ℕ → ℕ → Message → State → Bool × State

pub record Inspected : Type 0 where
  pub message_id : ℕ
  pub info : DeathInfo
  pub timestamp : ℕ
  pub content : ℕ

pub record Counts : Type 0 where
  pub replayed : ℕ
  pub failed : ℕ
  pub skipped : ℕ

pub data Outcome : Type 0 where
  -- `JSON.parse` or `_parseDeathInfo` throws
  threw : Outcome
  replays fails skips : Outcome

pub data Single : Type 0 where
  no_messages no_routing_key backpressure thrown : Single
  success : ℕ → Single

unfoldable pub counted : Outcome → Counts → Counts
counted threw c = c
counted replays c = record c { replayed = c.replayed + 1 }
counted fails c = record c { failed = c.failed + 1 }
counted skips c = record c { skipped = c.skipped + 1 }

-- the message as `replayAll` publishes it
abbrev pub resent : Message → Message
resent m = record m { replayed = true; replay_count = m.replay_count + 1 }

abbrev pub target_exchange : DeathInfo → ℕ
target_exchange info = or_default info.original_exchange events_exchange

-- does the filter, if there is one, refuse the message?
abbrev pub refuses : Option (Message → Bool) → Message → Bool
refuses none m = false
refuses (some filter) m = not (filter m)

-- what `inspectMessages` shows of a message; `none` is an exception
unfoldable pub inspected : Message → Option Inspected
inspected m = if not m.valid then none else elim (parse_death_info m) [
  | none ↦ none
  | some info ↦ elim (iso_of m.timestamp) [
    | none ↦ none
    | some timestamp ↦ some (record {
      message_id = m.message_id;
      info = info;
      timestamp = timestamp;
      content = m.content;
    })
  ]
]

module _ (b : Broker) where
  open b use {State, get, nack, ack, publish}

  -- the end of one round of `replayAll`, once the message is published
  unfoldable pub settle : Message → Bool → State → Outcome × State
  settle m true s = (replays, ack m s)
  settle m false s = (fails, nack m true s)

  -- one round of `replayAll`, on the message that was taken, once its death header is parsed
  unfoldable pub replay_parsed : DeathInfo → Message → State → Outcome × State
  replay_parsed info m s =
      let sent = publish (target_exchange info) info.original_routing_key (resent m) s in
      if not (truthy info.original_routing_key)
      then (fails, nack m false s)
      else if leb max_replay_attempts m.replay_count
      then (fails, nack m false s)
      else settle m sent.0 sent.1

  -- one round of `replayAll`, on the message that was taken
  unfoldable pub replay_one : Option (Message → Bool) → Message → State → Outcome × State
  replay_one filter m s =
      let parsed : Outcome × State = elim (parse_death_info m) [
        | none ↦ (threw, s)
        | some info ↦ replay_parsed info m s
      ] in
      if not m.valid
      then (threw, s)
      else if refuses filter m
      then (skips, nack m true s)
      else parsed

  -- The loop of `replayAll`: `none` is a run that is not over when the fuel is, and the outcome
  -- `threw` ends it with the exception.
  unfoldable pub replay_loop :
      ℕ → Option (Message → Bool) → Counts → State → Option (Outcome × Counts × State)
  replay_loop zero filter c s = none
  replay_loop (suc fuel) filter c s = elim (get s).0 [
    | none ↦ some (replays, c, (get s).1)
    | some m ↦
        let round = replay_one filter m (get s).1 in
        let rest = replay_loop fuel filter (counted round.0 c) round.1 in
        elim round.0 [ threw ↦ some (threw, c, round.1) | _ ↦ rest ]
  ]

  unfoldable pub replay_all :
      ℕ → Option (Message → Bool) → State → Option (Outcome × Counts × State)
  replay_all fuel filter s =
      replay_loop fuel filter (record { replayed = 0; failed = 0; skipped = 0 }) s

  -- the loop of `inspectMessages`, which stops with the exception where there is one
  unfoldable pub inspect_messages : ℕ → State → Option (List Inspected) × State
  inspect_messages zero s = (some [], s)
  inspect_messages (suc limit) s = elim (get s).0 [
    | none ↦ (some [], (get s).1)
    | some m ↦
        let rest = inspect_messages limit (nack m true (get s).1) in
        elim (inspected m) [
          | none ↦ (none, (get s).1)
          | some shown ↦ (Option.map (λ (ms : List Inspected). shown ∷ ms) rest.0, rest.1)
        ]
  ]

  -- the end of `replayMessage`, once the message is published
  unfoldable pub settle_single : Message → Bool → State → Single × State
  settle_single m true s = (success m.message_id, ack m s)
  settle_single m false s = (backpressure, nack m true s)

  -- `replayMessage`, which is given a routing key or 0, once the death header is parsed
  unfoldable pub replay_single : (routing_key : ℕ) → DeathInfo → Message → State → Single × State
  replay_single routing_key info m s =
      let target = or_default routing_key info.original_routing_key in
      let sent =
        publish (target_exchange info) target
          (record m { replayed = true; original_death_count = some info.count }) s in
      if not (truthy target)
      then (no_routing_key, nack m false s)
      else settle_single m sent.0 sent.1

  -- `replayMessage`, which is given an identifier and a routing key or 0
  unfoldable pub replay_message : (message_id routing_key : ℕ) → State → Single × State
  replay_message message_id routing_key s = elim (get s).0 [
    | none ↦ (no_messages, (get s).1)
    | some m ↦
        let parsed : Single × State = elim (parse_death_info m) [
          | none ↦ (thrown, (get s).1)
          | some info ↦ replay_single routing_key info m (get s).1
        ] in
        if not m.valid then (thrown, (get s).1) else parsed
  ]

-- one run of the timer of `startMonitoring`: does it warn?
unfoldable pub exceeds : (threshold message_count : ℕ) → Bool
exceeds threshold message_count = ltb threshold message_count
