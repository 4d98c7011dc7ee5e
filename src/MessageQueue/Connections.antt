-- ===== src/MessageQueue/Connections.antt =====
-- The steps of the client besides subscriptions, and what comes between the steps of two calls.
use siam_siam_ecosystem.Dict.{lookup, lookup-insert_self}
use siam_siam_ecosystem.MessageQueue.Defs.{
  connect, create_channel, handle_disconnect, Queue, Connection, run_timer, channel_closed, publish,
  unsubscribe, purge_queue, shutdown, established, connection_opened, channel_opened, ask_channel,
  opening,
}
use siam_siam_ecosystem.Common.{some, none, arith, ℕ, Option, ◌<◌, ◌≡◌, false, true, Bool}

-- calls, parts of calls, events of the connection and of channels, and timers, but no subscription
pub data Calm : Queue → Queue → Type 0 where
  connects : (c : Connection) (q : Queue) → Calm q (connect c q)
  -- a `connect` that waits: the broker answers, or it or the setup fails
  answers : (q : Queue) → Calm q (connection_opened q)
  fails : (q : Queue) → Calm q (handle_disconnect q)
  timer : (c : Connection) (q : Queue) → 0 < q.pending → Calm q (run_timer c q)
  -- the events 'error' and 'close' of the connection
  disconnects : (q : Queue) → q.has_connection ≡ true → Calm q (handle_disconnect q)
  opens : (name : ℕ) (o : Option ℕ) (q : Queue) → Calm q (create_channel name o q).1
  -- a `createChannel` that waits: the channel is open
  arrives : (name c : ℕ) (q : Queue) → Calm q (channel_opened name c q)
  closes : (name : ℕ) (q : Queue) → Calm q (channel_closed name q)
  publishes : (o : Option ℕ) (taken : Bool) (q : Queue) → Calm q (publish o taken q).1
  unsubscribes : (key : ℕ) (ok : Bool) (q : Queue) → Calm q (unsubscribe key ok q)
  purges : (o p : Option ℕ) (q : Queue) → Calm q (purge_queue o p q).1
  shuts : (q : Queue) → Calm q (shutdown q)

handle_disconnect-is_connected : (q : Queue) → (handle_disconnect q).is_connected ≡ false
unfolding handle_disconnect
handle_disconnect-is_connected q = ground arith

-- A client is connected and has no channel of a name, `createChannel` asks the broker for one, and the
-- client gives the connection up before the channel is open, as it does when the setup fails. The
-- channel is then kept by a client that is not connected, and once the client has connected again,
-- `createChannel` gives it, whatever the new connection would open: a channel of the old connection.
pub stale_channel :
    (name c : ℕ) (o : Option ℕ) (q : Queue)
    → q.is_connected ≡ true
    → lookup name q.channels ≡ none
    → let kept = channel_opened name c (handle_disconnect q) in
      (ask_channel name q ≡ opening)
      × (kept.is_connected ≡ false)
      × (lookup name kept.channels ≡ some c)
      × ((connect established kept).is_connected ≡ true)
      × ((create_channel name o (connect established kept)).0 ≡ some c)
unfolding ask_channel connect create_channel
stale_channel name c o q h unknown =
    let lost = handle_disconnect q in
    let off = handle_disconnect-is_connected q in
    let there = lookup-insert_self name c lost.channels in
    (ground arith, off, there, ground (arith, off), ground (arith, off, there))
