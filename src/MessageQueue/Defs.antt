-- ===== src/MessageQueue/Defs.antt =====
-- `class MessageQueue`: connection, channels, publishing and consumers. What the broker answers to a call
-- is an argument; a channel, a consumer tag and a text are numbers. `connect` and `createChannel` wait
-- for the broker: each is given in the steps between which other calls and events can come, and then
-- as the call in which none does; the other calls are calls in which none does. `pending` counts the timers that
-- `setTimeout(() => this.connect(), …)` has started and that have not run.
use siam_siam_ecosystem.Dict.{Dict, erase, insert, lookup}
use siam_siam_ecosystem.Common.{
  none, some, [], ◌∷◌, Bool, length, ◌-◌, ℕ, Option, false, true, or_default, if◌then◌else◌, not,
  ◌+◌, ltb,
}

pub record Metrics : Type 0 where
  pub messages_published : ℕ
  pub messages_consumed : ℕ
  pub messages_failed : ℕ
  pub messages_retried : ℕ
  pub reconnections : ℕ

pub record Consumer : Type 0 where
  pub channel : ℕ
  pub consumer_tag : ℕ
  pub queue_name : ℕ
  pub channel_name : ℕ

pub record Queue : Type 0 where
  pub has_connection : Bool
  pub channels : Dict ℕ
  pub consumers : Dict Consumer
  pub is_connected : Bool
  pub is_shutting_down : Bool
  pub reconnect_attempts : ℕ
  pub max_reconnect_attempts : ℕ
  pub metrics : Metrics
  pub pending : ℕ

-- the constructor, at `config.rabbitmq.options.retry.maxAttempts`
abbrev pub new : ℕ → Queue
new max_attempts = record {
  has_connection = false;
  channels = [];
  consumers = [];
  is_connected = false;
  is_shutting_down = false;
  reconnect_attempts = 0;
  max_reconnect_attempts = or_default max_attempts 10;
  metrics = record {
    messages_published = 0;
    messages_consumed = 0;
    messages_failed = 0;
    messages_retried = 0;
    reconnections = 0;
  };
  pending = 0;
}

-- `_handleDisconnect`; the delay of the timer is `reconnect_delay`
unfoldable pub handle_disconnect : Queue → Queue
handle_disconnect q =
    let cleared = record q { is_connected = false; channels = []; consumers = [] } in
    if q.is_shutting_down
    then cleared
    else if ltb q.reconnect_attempts q.max_reconnect_attempts
    then record cleared {
      reconnect_attempts = q.reconnect_attempts + 1;
      metrics = record q.metrics { reconnections = q.metrics.reconnections + 1 };
      pending = q.pending + 1;
    }
    else cleared

-- what `connect` meets: the broker is not reached, the infrastructure cannot be set up, or all is well
pub data Connection : Type 0 where
  refused setup_failed established : Connection

-- `connect` once the broker has answered; what follows is the setup, which calls `handle_disconnect` if
-- it fails
abbrev pub connection_opened : Queue → Queue
connection_opened q = record q {
  has_connection = true;
  is_connected = true;
  reconnect_attempts = 0;
  is_shutting_down = false;
}

-- `connect`, if nothing else happens while it waits
unfoldable pub connect : Connection → Queue → Queue
connect c q = if q.is_connected then q else elim c [
  | refused ↦ handle_disconnect q
  | setup_failed ↦ handle_disconnect (connection_opened q)
  | established ↦ connection_opened q
]

-- a timer that `_handleDisconnect` has started runs
unfoldable pub run_timer : Connection → Queue → Queue
run_timer c q = connect c (record q { pending = q.pending - 1 })

-- `createChannel` up to its first wait: it throws, knows the channel, or asks the broker for it
pub data Asked : Type 0 where
  not_connected opening : Asked
  known : ℕ → Asked

unfoldable pub ask_channel : (name : ℕ) → Queue → Asked
ask_channel name q =
    if not q.is_connected
    then not_connected
    else elim (lookup name q.channels) [ some c ↦ known c | none ↦ opening ]

-- and once the broker has opened the channel
abbrev pub channel_opened : (name c : ℕ) → Queue → Queue
channel_opened name c q = record q { channels = insert name c q.channels }

-- `createChannel`, if nothing else happens while it waits: `none` where it throws, at the channel that
-- the broker opens, if it opens one
unfoldable pub create_channel : (name : ℕ) → Option ℕ → Queue → Option ℕ × Queue
unfolding ask_channel
create_channel name opened q = elim (ask_channel name q) [
  | not_connected ↦ (none, q)
  | known c ↦ (some c, q)
  | opening ↦ elim opened [ none ↦ (none, q) | some c ↦ (some c, channel_opened name c q) ]
]

-- the events 'error' and 'close' of a channel
unfoldable pub channel_closed : ℕ → Queue → Queue
channel_closed name q = record q { channels = erase name q.channels }

-- the names 'publisher' and 'admin' of channels
abbrev pub publisher : ℕ
publisher = 1

abbrev pub admin : ℕ
admin = 2

-- the headers' names and values are numbers; options that are absent are `none`
pub record Options : Type 0 where
  pub message_id : Option ℕ
  pub correlation_id : Option ℕ
  pub expiration : Option ℕ
  pub headers : Option (Dict ℕ)

-- what is passed to the channel
pub record Envelope : Type 0 where
  pub message_id : ℕ
  pub correlation_id : ℕ
  pub expiration : Option ℕ
  pub headers : Dict ℕ

-- the names 'source', 'environment' and 'timestamp' of headers
abbrev pub source : ℕ
source = 1

abbrev pub environment : ℕ
environment = 2

abbrev pub timestamp : ℕ
timestamp = 3

-- `{...older, ...newer}`
abbrev pub spread : Dict ℕ → Dict ℕ → Dict ℕ
spread older [] = older
spread older ((k, v) ∷ newer) = spread (insert k v older) newer

-- the value of an attribute after `...options`
abbrev pub replaced : {A : Type 0} → A → Option A → A
replaced old none = old
replaced old (some v) = v

-- `options.a || d`
abbrev pub option_or : Option ℕ → ℕ → ℕ
option_or none d = d
option_or (some v) d = or_default v d

-- `messageOptions` of `publish`, at the service's name, the environment, the time and a new identifier
unfoldable pub message_options : (service env now generated : ℕ) → Options → Envelope
message_options service env now generated o =
    let message_id = option_or o.message_id generated in
    let stamped = (source, service) ∷ ((environment, env) ∷ ((timestamp, now) ∷ [])) in
    let given = elim o.headers as (λ h. Dict ℕ) [ none ↦ [] | some h ↦ h ] in
    record {
      message_id = replaced message_id o.message_id;
      correlation_id = replaced (option_or o.correlation_id message_id) o.correlation_id;
      expiration = o.expiration;
      headers = replaced (spread stamped given) o.headers;
    }

-- `publish`: `none` where it throws, otherwise whether the channel took the message
unfoldable pub publish : (opened : Option ℕ) → (taken : Bool) → Queue → Option Bool × Queue
publish opened taken q =
    let (channel, r) = create_channel publisher opened q in
    elim channel [
      | none ↦ (none, r)
      | some c ↦ (
        some taken,
        if taken
            then record r {
              metrics = record r.metrics { messages_published = r.metrics.messages_published + 1 };
            }
            else r,
      )
    ]

-- `subscribe`, at the name of its channel, the channel, the tag that the broker gives, if any call does
-- not fail, and the key of the consumer
unfoldable pub subscribe :
    (queue_name channel_name key : ℕ) → (opened tag : Option ℕ) → Queue → Option ℕ × Queue
subscribe queue_name channel_name key opened tag q =
    let (channel, r) = create_channel channel_name opened q in
    elim channel [
      | none ↦ (none, r)
      | some c ↦ elim tag [
        | none ↦ (none, r)
        | some t ↦ (
          some key,
          record r {
            consumers =
                insert key
                  (record {
                    channel = c;
                    consumer_tag = t;
                    queue_name = queue_name;
                    channel_name = channel_name;
                  })
                  r.consumers;
          },
        )
      ]
    ]

-- `unsubscribe`, at whether the broker cancels the consumer
unfoldable pub unsubscribe : (key : ℕ) → (cancelled : Bool) → Queue → Queue
unsubscribe key cancelled q = elim (lookup key q.consumers) [
  | none ↦ q
  | some c ↦ if cancelled then record q { consumers = erase key q.consumers } else q
]

-- `purgeQueue`, at the broker's answer
unfoldable pub purge_queue : (opened purged : Option ℕ) → Queue → Option ℕ × Queue
purge_queue opened purged q =
    let (channel, r) = create_channel admin opened q in
    (elim channel [ none ↦ none | some c ↦ purged ], r)

-- `shutdown`; what the broker answers makes no difference
unfoldable pub shutdown : Queue → Queue
shutdown q = record q {
  is_shutting_down = true;
  consumers = [];
  channels = [];
  is_connected = false;
}

-- `getMetrics`
pub record Report : Type 0 where
  pub metrics : Metrics
  pub is_connected : Bool
  pub reconnect_attempts : ℕ
  pub active_channels : ℕ
  pub active_consumers : ℕ

unfoldable pub get_metrics : Queue → Report
get_metrics q = record {
  metrics = q.metrics;
  is_connected = q.is_connected;
  reconnect_attempts = q.reconnect_attempts;
  active_channels = length q.channels;
  active_consumers = length q.consumers;
}
