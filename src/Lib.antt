-- ===== src/Lib.antt =====
-- The SiamSiam ecosystem's shared JavaScript packages, modelled for verification. The code is
-- single-threaded: a state is a record, a call is a function from the state to its answer and the next
-- state, and a periodic timer is one more call. A call of an asynchronous function is taken without
-- other calls between its waits, except where the steps between the waits are named below.
--
-- Common, Dict, Sets, Double: Boolean tests, lists, JavaScript's `Map` and `Set` in the order of
-- insertion, and floating-point numbers as a parameter without laws. A text that the code only
-- compares is a number, the empty text being 0, so that it is falsy as in JavaScript. `Date.now()`
-- is an argument, read once in a call, in milliseconds. An object with a text for each key is an
-- association list: keys that every JavaScript object inherits, such as 'constructor', are left out.
--
-- Time: times from outside, which may be missing or no date, and numbers of days, which may be `NaN`.
--
-- Referral: packages/shared-utils/src/referral/multi-level-commissions.js (`addRelationship`,
-- `_wouldCreateCycle`, `calculateNetworkCommissions`, `getUpline`, `getDownline`, `getNetworkStats`,
-- `setLevelRate`). The loop of the cycle check runs on fuel, one more than the network has entries,
-- which is enough in a forest. The other loops run on the rounds left until `maxDepth`.
--
-- Cache: packages/shared-utils/src/cache/memory-cache.js, all of its operations but `getStats`.
--
-- Rooms: packages/shared-utils/src/realtime/room-manager.js, all operations.
--
-- Presence: packages/shared-utils/src/realtime/presence-tracker.js, all operations and the timer.
--
-- Limiter: packages/shared-utils/src/security/rate-limiter.js. The refill of a bucket, which the
-- code computes in floats, is a parameter. `_maskKey`, which only serves the log, is not modelled.
--
-- Alerts: packages/shared-utils/src/monitoring/alert-manager.js, for whole metric values; the log
-- and the notification have no effect on the state and are left out.
--
-- Sessions: packages/shared-utils/src/ussd/session-manager.js, all operations and the timer. The
-- functions keep the code's names (`create`, `get`, `update`, `go_back` for `goBack`); the random
-- part of an identifier is an argument. A session that a call returns is a copy: callers that change
-- it behind the manager's back are not modelled.
--
-- StateMachine, Menus, Texts: packages/shared-utils/src/ussd/state-machine.js and menu-builder.js,
-- with what a user types as a list of ASCII codes. The loop of `getNavigationPath` runs on fuel; one
-- round more than the menu's rank is enough where parents rank below their menus. `render` and
-- `exportStructure`, which only build texts, are not modelled.
--
-- DeadLetters: packages/shared-utils/src/messaging/dead-letter-handler.js, over a record `Broker` of
-- the channel's operations, which records what is published; `IsQueue` states what the broker's
-- documentation promises of them. A death header or a timestamp that is no date is an exception. The
-- loop of `replayAll` runs on fuel, one round more than there are messages, which is enough without a
-- filter. `getStats` and `purge` only pass a call on.
--
-- Retry: packages/shared-utils/src/messaging/retry-policy.js. Delays are floats, a parameter; the
-- function that is retried is the sequence of what its calls do, and `Math.random()` a sequence too.
--
-- Tracker, Calculator, Engine: packages/shared-utils/src/referral/referral-tracker.js,
-- commission-calculator.js and referral-engine.js, which calls the other two. Amounts are floats.
-- Formatted texts and the tracker's `getUserStats` are not modelled.
--
-- Eligibility: packages/shared-utils/src/refunds/refund-eligibility-checker.js. The policy engine
-- that it asks is a function, a parameter. A date that cannot be read gives `NaN` days.
--
-- Policies: packages/shared-utils/src/refunds/refund-policy-engine.js. A policy is a record whose
-- attributes may be absent, so that spreading one over another is written out. Days are whole numbers
-- or `NaN`; percentages and amounts are whole numbers.
--
-- Router: packages/shared-utils/src/refunds/refund-method-router.js. The table is a state, since
-- sorting changes it; the sort, which JavaScript promises to be stable, is by insertion.
--
-- Refunds: how these interact: the eligibility check with the engine in place of its parameter, and
-- the router with the methods that the engine's policy allows.
--
-- MessageQueue: packages/shared-utils/src/messaging/message-queue.js. What RabbitMQ answers to a call
-- is an argument; the calls that the consumer of a message makes are its result; `pending` counts the
-- timers of reconnections. `connect` and `createChannel` are given in the steps between their waits,
-- with which other calls can be interleaved, and as calls without interruption; whether a copy that is
-- published for a retry comes back to the subscription is a parameter. `_setupInfrastructure` and the
-- status queries only pass calls on.
--
-- Webhooks: packages/shared-utils/src/messaging/webhook-manager.js. The replies that the attempts meet
-- are a sequence, and waiting is the list of the delays slept. The loop runs on the rounds left, six of
-- them, as in the code. Signatures and `_maskUrl` are not modelled.
--
-- Not modelled: the database models of packages/shared-models, whose operations are queries; the
-- amounts, fees and timelines of refunds, which are sums in floats and dates; the validation packages
-- and the event bus, which rest on regular expressions; and what only passes data to Redis, RabbitMQ
-- or a database.
pub mod Common
pub mod Dict
pub mod Double
pub mod Sets
pub mod Referral
pub mod Time
pub mod Tracker
pub mod Calculator
pub mod Engine
pub mod Cache
pub mod Eligibility
pub mod Policies
pub mod Router
pub mod Refunds
pub mod Rooms
pub mod Texts
pub mod StateMachine
pub mod Menus
pub mod Sessions
pub mod Presence
pub mod DeadLetters
pub mod Retry
pub mod MessageQueue
pub mod Webhooks
pub mod Limiter
pub mod Alerts
