-- ===== src/MessageQueue/Tests.antt =====
-- Runs of the client, and its theorems at concrete inputs.
use siam_siam_ecosystem.Double.{thousandths}
use siam_siam_ecosystem.MessageQueue.Defs.{
  established, ask_channel, opening, channel_opened, refused, get_metrics, Queue, message_options,
  connect, publish, new, shutdown, handle_disconnect, subscribe, create_channel, run_timer,
}
use siam_siam_ecosystem.MessageQueue.Delivery.{
  returns, throws, SubscribeOptions, calculate_retry_delay, consume, Message, Handled, with_count,
}
use siam_siam_ecosystem.Dict.{lookup}
use siam_siam_ecosystem.MessageQueue.Connections.{connects, stale_channel}
use siam_siam_ecosystem.MessageQueue.Outages.{
  here, then_calm, disconnected-consumers, Tried, unreachable, shutdown_undone, unreachable_lem,
}
use siam_siam_ecosystem.Common.{
  none, some, [], ◌∷◌, refl, arith, ◌<◌, ◌≡◌, ℕ, true, if◌then◌else◌, false, ◌+◌, ◌==◌,
}

abbrev online : Queue
online = connect established (new 3)

abbrev subscribed : Queue
subscribed = (subscribe 7 8 9 (some 21) (some 22) online).1

one_consumer : (get_metrics subscribed).active_consumers ≡ 1
unfolding get_metrics subscribe create_channel connect
one_consumer = refl

not_published_offline : (publish (some 5) true (new 3)).0 ≡ none
unfolding publish create_channel
not_published_offline = refl

-- headers that a caller gives replace the client's own
only_its_headers :
    (message_options 11 12 13 14 (record {
      message_id = none;
      correlation_id = none;
      expiration = none;
      headers = some ((8, 9) ∷ []);
    })).headers
    ≡ (8, 9) ∷ []
unfolding message_options
only_its_headers = refl

stale_channel_example :
    let kept = channel_opened 5 21 (handle_disconnect online) in
    (ask_channel 5 online ≡ opening)
    × (kept.is_connected ≡ false)
    × (lookup 5 kept.channels ≡ some 21)
    × ((connect established kept).is_connected ≡ true)
    × ((create_channel 5 (some 22) (connect established kept)).0 ≡ some 21)
unfolding connect
stale_channel_example = stale_channel 5 21 (some 22) online refl refl

-- the connection is lost and there again
abbrev reconnected : Queue
reconnected = connect established (handle_disconnect subscribed)

back_again : reconnected.is_connected ≡ true
unfolding connect handle_disconnect subscribe create_channel
back_again = refl

disconnected-consumers_example : reconnected.consumers ≡ []
disconnected-consumers_example =
    disconnected-consumers subscribed
      (then_calm here (connects established (handle_disconnect subscribed)))

unreachable_lem_example :
    (2 < 3 → Tried (2 + 1) 1 (unreachable 2 (connect refused (new 3))))
    × Tried 3 0 (unreachable 3 (connect refused (new 3)))
unreachable_lem_example = unreachable_lem 3 2

shutdown_undone_example :
    (0 < (shutdown (handle_disconnect (new 3))).pending)
    × ((shutdown (handle_disconnect (new 3))).is_shutting_down ≡ true)
    × ((shutdown (handle_disconnect (new 3))).is_connected ≡ false)
    × ((run_timer established (shutdown (handle_disconnect (new 3)))).is_connected ≡ true)
    × ((run_timer established (shutdown (handle_disconnect (new 3)))).is_shutting_down ≡ false)
shutdown_undone_example = shutdown_undone (new 3) refl (omega arith)

abbrev options : SubscribeOptions
options = record { requeue_on_error = true; max_retries = 2 }

abbrev message : Message
message = record { routing_key = 1; content = 2; headers = [] }

-- the second attempt succeeds
abbrev at_second : ℕ → Handled
at_second n = if n == 0 then throws 6 else returns

second_delay : calculate_retry_delay thousandths 500 1 ≡ 2_000_000
unfolding calculate_retry_delay
second_delay = refl

fails_twice :
    (consume thousandths options 500
      (throws 6)
      (with_count 3 6 message)
      online).1.metrics.messages_retried
    ≡ 0
unfolding consume connect
fails_twice = refl
