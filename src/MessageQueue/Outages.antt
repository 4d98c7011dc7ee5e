-- ===== src/MessageQueue/Outages.antt =====
-- What is left of the client after its connection was lost, and after `shutdown`.
use siam_siam_ecosystem.Dict.{lookup}
use siam_siam_ecosystem.MessageQueue.Defs.{
  refused, established, setup_failed, run_timer, connect, create_channel, publish, Queue,
  handle_disconnect, shutdown, unsubscribe, new, Connection, channel_closed, publisher, purge_queue,
  admin,
}
use siam_siam_ecosystem.MessageQueue.Connections.{
  connects, answers, fails, arrives, timer, disconnects, opens, closes, publishes, unsubscribes,
  purges, shuts, Calm,
}
use siam_siam_ecosystem.Common.{
  [], zero, suc, inl, inr, refl, arith, ℕ, ◌≡◌, ◌<◌, Bool, Option, ◌+◌, false, true, Option-cases,
  or_default, ◌∙◌, ap, subst, sym,
}

-- any number of calls, parts of calls, events and timers, but no subscription
pub data Calms (q : Queue) : Queue → Type 0 where
  here : Calms q q
  then_calm : {r s : Queue} → Calms q r → Calm r s → Calms q s

handle_disconnect-consumers : (q : Queue) → (handle_disconnect q).consumers ≡ []
unfolding handle_disconnect
handle_disconnect-consumers q = ground arith

connect-consumers : (c : Connection) (q : Queue) → q.consumers ≡ [] → (connect c q).consumers ≡ []
unfolding connect
connect-consumers refused q h = ground (arith, handle_disconnect-consumers q)
connect-consumers established q h = ground arith
connect-consumers setup_failed q h = ground (
  arith,
  handle_disconnect-consumers (record q {
    has_connection = true;
    is_connected = true;
    reconnect_attempts = 0;
    is_shutting_down = false;
  }),
)

create_channel-consumers :
    (name : ℕ) (o : Option ℕ) (q : Queue) → (create_channel name o q).1.consumers ≡ q.consumers
unfolding create_channel
create_channel-consumers name o q = ground arith

publish-consumers :
    (o : Option ℕ) (taken : Bool) (q : Queue) → (publish o taken q).1.consumers ≡ q.consumers
unfolding publish
publish-consumers o taken q = ground (arith, create_channel-consumers publisher o q)

unsubscribe-consumers :
    (key : ℕ) (ok : Bool) (q : Queue) → q.consumers ≡ [] → (unsubscribe key ok q).consumers ≡ []
unfolding unsubscribe
unsubscribe-consumers key ok q h = elim (Option-cases (lookup key q.consumers)) [
  | inl e ↦ rw (e, unsubscribe) h
  | inr (c, e) ↦ ground (arith, e, ap (lookup key) h)
]

Calm-consumers : {q r : Queue} → Calm q r → q.consumers ≡ [] → r.consumers ≡ []
unfolding run_timer shutdown channel_closed purge_queue
Calm-consumers (connects c q) h = connect-consumers c q h
Calm-consumers (timer c q p) h = connect-consumers c _ h
Calm-consumers (disconnects q p) h = handle_disconnect-consumers q
Calm-consumers (opens name o q) h = create_channel-consumers name o q ∙ h
Calm-consumers (answers q) h = h
Calm-consumers (fails q) h = handle_disconnect-consumers q
Calm-consumers (arrives name c q) h = h
Calm-consumers (closes name q) h = h
Calm-consumers (publishes o taken q) h = publish-consumers o taken q ∙ h
Calm-consumers (unsubscribes key ok q) h = unsubscribe-consumers key ok q h
Calm-consumers (purges o p q) h = create_channel-consumers admin o q ∙ h
Calm-consumers (shuts q) h = refl

-- A lost connection loses every consumer for good: whatever calls, events and timers follow, also those
-- that connect again, the client has no consumer until a `subscribe` adds one.
pub disconnected-consumers :
    (q : Queue) {r : Queue} → Calms (handle_disconnect q) r → r.consumers ≡ []
disconnected-consumers q here = handle_disconnect-consumers q
disconnected-consumers q (then_calm cs c) = Calm-consumers c (disconnected-consumers q cs)

-- `n` timers in a row, each of which finds the broker unreachable
abbrev pub unreachable : ℕ → Queue → Queue
unreachable zero q = q
unreachable (suc n) q = run_timer refused (unreachable n q)

-- a client that is not connected and has tried `k` reconnections, with one timer pending if there is one
pub record Tried (k pending : ℕ) (q : Queue) : Type 0 where
  pub disconnected : q.is_connected ≡ false
  pub running : q.is_shutting_down ≡ false
  pub tried : q.reconnect_attempts ≡ k
  pub waits : q.pending ≡ pending

run_timer-Tried :
    (k : ℕ) (q : Queue)
    → Tried k 1 q
    → k < q.max_reconnect_attempts
    → Tried (k + 1) 1 (run_timer refused q)
unfolding run_timer connect handle_disconnect
run_timer-Tried k q t l = record {
  disconnected = ground arith;
  running = ground arith;
  tried = ground arith;
  waits = ground arith;
}

run_timer_last :
    (q : Queue)
    → Tried q.max_reconnect_attempts 1 q
    → Tried q.max_reconnect_attempts 0 (run_timer refused q)
unfolding run_timer connect handle_disconnect
run_timer_last q t = record {
  disconnected = ground arith;
  running = ground arith;
  tried = ground arith;
  waits = ground arith;
}

run_timer-max :
    (q : Queue) → (run_timer refused q).max_reconnect_attempts ≡ q.max_reconnect_attempts
unfolding run_timer connect handle_disconnect
run_timer-max q = ground arith

unreachable-max :
    (n : ℕ) (q : Queue) → (unreachable n q).max_reconnect_attempts ≡ q.max_reconnect_attempts
unreachable-max zero q = refl
unreachable-max (suc n) q = run_timer-max (unreachable n q) ∙ unreachable-max n q

-- `connect`, called while the broker is unreachable
first_try : (max_attempts : ℕ) → Tried 1 1 (connect refused (new max_attempts))
unfolding connect handle_disconnect
first_try zero = record { disconnected = refl; running = refl; tried = refl; waits = refl }
first_try (suc n) = record {
  disconnected = ground arith;
  running = ground arith;
  tried = ground arith;
  waits = ground arith;
}

connect-max :
    (max_attempts : ℕ)
    → (connect refused (new max_attempts)).max_reconnect_attempts ≡ or_default max_attempts 10
unfolding connect handle_disconnect
connect-max max_attempts = ground arith

-- the state after `n` timers
waiting : (max_attempts n : ℕ) → Queue
waiting max_attempts n = unreachable n (connect refused (new max_attempts))

waiting-max :
    (max_attempts n : ℕ)
    → (waiting max_attempts n).max_reconnect_attempts ≡ or_default max_attempts 10
unfolding waiting
waiting-max max_attempts n =
    unreachable-max n (connect refused (new max_attempts)) ∙ connect-max max_attempts

waiting-Tried :
    (max_attempts n : ℕ) → n < or_default max_attempts 10 → Tried (n + 1) 1 (waiting max_attempts n)
unfolding waiting
waiting-Tried max_attempts zero l = first_try max_attempts
waiting-Tried max_attempts (suc n) l =
    subst (λ k. Tried (k + 1) 1 (waiting max_attempts (suc n))) (omega arith)
      (run_timer-Tried (n + 1) (waiting max_attempts n) (waiting-Tried max_attempts n (omega arith))
        (omega (arith, waiting-max max_attempts n)))

waiting_last :
    (max_attempts n : ℕ)
    → suc n ≡ or_default max_attempts 10
    → Tried (or_default max_attempts 10) 0 (waiting max_attempts (suc n))
unfolding waiting
waiting_last max_attempts n e =
    let q = waiting max_attempts n in
    let full : q.max_reconnect_attempts ≡ n + 1 = omega (arith, waiting-max max_attempts n) in
    let last =
      run_timer_last q
        (subst (λ k. Tried k 1 q) (sym full) (waiting-Tried max_attempts n (omega arith))) in
    subst (λ k. Tried k 0 (run_timer refused q)) (waiting-max max_attempts n) last

waiting_over :
    (max_attempts : ℕ)
    → Tried (or_default max_attempts 10) 0 (waiting max_attempts (or_default max_attempts 10))
waiting_over zero = waiting_last 0 9 refl
waiting_over (suc n) = waiting_last (suc n) n refl

-- A client that is started while the broker is unreachable, and for as long as it is: after `n` timers, fewer
-- than the reconnections that are allowed, `n + 1` reconnections have been tried and one timer is pending;
-- after as many timers as are allowed, none is, so that the client never connects by itself again.
pub unreachable_lem :
    (max_attempts n : ℕ)
    → let q = connect refused (new max_attempts) in
      (n < or_default max_attempts 10 → Tried (n + 1) 1 (unreachable n q))
      × Tried (or_default max_attempts 10) 0 (unreachable (or_default max_attempts 10) q)
unfolding waiting
unreachable_lem max_attempts n = (waiting-Tried max_attempts n, waiting_over max_attempts)

-- `shutdown` does not stop the timer of a reconnection: after a connection is lost while reconnections are
-- left, and `shutdown` is called, the timer that runs then connects again, and the client no longer knows
-- that it was shut down.
pub shutdown_undone :
    (q : Queue)
    → q.is_shutting_down ≡ false
    → q.reconnect_attempts < q.max_reconnect_attempts
    → let r = shutdown (handle_disconnect q) in
      (0 < r.pending)
      × (r.is_shutting_down ≡ true)
      × (r.is_connected ≡ false)
      × ((run_timer established r).is_connected ≡ true)
      × ((run_timer established r).is_shutting_down ≡ false)
unfolding shutdown handle_disconnect run_timer connect
shutdown_undone q s l = (ground arith, refl, refl, ground arith, ground arith)
