-- ===== src/MessageQueue/Delivery.antt =====
-- What the consumer of `subscribe` does with a message. Delays are floats, a parameter; the calls that are
-- made of the channel are the result.
use siam_siam_ecosystem.MessageQueue.Defs.{Queue}
use siam_siam_ecosystem.Dict.{lookup, Dict, insert}
use siam_siam_ecosystem.Double.{Double}
use siam_siam_ecosystem.Common.{
  none, some, [], ◌∷◌, ℕ, Bool, ◌^◌, List, ◌+◌, if◌then◌else◌, ◌&&◌, leb, or_default, Option,
}

pub record Message : Type 0 where
  pub routing_key : ℕ
  pub content : ℕ
  pub headers : Dict ℕ

-- the names 'x-retry-count' and 'x-last-error' of headers
abbrev pub x_retry_count : ℕ
x_retry_count = 4

abbrev pub x_last_error : ℕ
x_last_error = 5

-- the handler returns, or it throws, as `JSON.parse` may before it
pub data Handled : Type 0 where
  returns : Handled
  throws : (message : ℕ) → Handled

pub record SubscribeOptions : Type 0 where
  pub requeue_on_error : Bool
  pub max_retries : ℕ

-- `n || 0`
abbrev pub count_of : Option ℕ → ℕ
count_of none = 0
count_of (some n) = n

-- `headers['x-retry-count'] || 0`
abbrev pub retries_before : Message → ℕ
retries_before m = count_of (lookup x_retry_count m.headers)

abbrev pub with_count : (retry_count error : ℕ) → Message → Message
with_count retry_count error m = record m {
  headers = insert x_last_error error (insert x_retry_count retry_count m.headers);
}

module _ (d : Double) where
  open d use {D, of_ℕ, add, sub, mul, div, round, min_of}

  -- the delay of `_calculateRetryDelay`, at what `Math.random()` gives
  unfoldable pub calculate_retry_delay : (random : D) → (retry_count : ℕ) → D
  calculate_retry_delay random retry_count =
      let delay = min_of (mul (of_ℕ 1000) (of_ℕ (2 ^ retry_count))) (of_ℕ 60_000) in
      let jitter = mul (mul delay (div (of_ℕ 1) (of_ℕ 4))) (sub (mul random (of_ℕ 2)) (of_ℕ 1)) in
      round (add delay jitter)

  -- the delay of `_handleDisconnect`, at the smallest and the largest delay of the configuration
  unfoldable pub reconnect_delay : (base_delay max_delay random : D) → (attempts : ℕ) → D
  reconnect_delay base_delay max_delay random attempts =
      let delay = min_of (mul base_delay (of_ℕ (2 ^ attempts))) max_delay in
      let jitter = mul (mul delay (div (of_ℕ 1) (of_ℕ 10))) (sub (mul random (of_ℕ 2)) (of_ℕ 1)) in
      round (add delay jitter)

  -- calls of the channel: a message is acknowledged, or rejected without being put back, and a copy is
  -- published to the events exchange, with an expiration
  pub data Call : Type 0 where
    ack : Message → Call
    nack : Message → Call
    republish : Message → (expiration : D) → Call

  -- the handler of `channel.consume`
  unfoldable pub consume :
      SubscribeOptions → (random : D) → Handled → Message → Queue → List Call × Queue
  consume o random returns m q = (
    ack m ∷ [],
    record q { metrics = record q.metrics { messages_consumed = q.metrics.messages_consumed + 1 } },
  )
  consume o random (throws error) m q =
      let failed = record q.metrics { messages_failed = q.metrics.messages_failed + 1 } in
      let retry_count = retries_before m + 1 in
      if o.requeue_on_error && leb retry_count (or_default o.max_retries 3)
      then (
        nack m
            ∷ (republish (with_count retry_count error m) (calculate_retry_delay random retry_count)
                ∷ []),
        record q { metrics = record failed { messages_retried = failed.messages_retried + 1 } },
      )
      else (nack m ∷ [], record q { metrics = failed })
