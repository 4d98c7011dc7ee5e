-- ===== src/DeadLetters/Tests.antt =====
-- Runs of the dead letter handler over a list as the queue, and its theorems at concrete queues.
use siam_siam_ecosystem.DeadLetters.Stuck.{replay_all_stuck, inspect_messages_lem}
use siam_siam_ecosystem.DeadLetters.Replay.{IsQueue, IsReadable}
use Prim.Native.Nat.{ℕ}
use siam_siam_ecosystem.Common.{
  Bool, ◌++◌, ℕ, List, true, not, Option, ◌∷◌, [], if◌then◌else◌, ◌==◌, false, ◌≡◌, arith, some,
  none, replicate, refl, inl,
}
use siam_siam_ecosystem.Time.{at, missing}
use siam_siam_ecosystem.DeadLetters.Defs.{
  Message, Publication, DeathInfo, unknown, resent, replay_parsed, death_info, inspect_messages,
  replay_all, Broker, replay_loop, replay_one, parse_death_info, replays, settle, counted,
}

abbrev take_first : List Message → Option Message × List Message
take_first [] = (none, [])
take_first (m ∷ ms) = (some m, ms)

-- a queue whose publications all succeed, or all report backpressure
abbrev list_queue : Bool → Broker
list_queue accepts = record {
  State = List Message × List Publication;
  ready = λ s. s.0;
  published = λ s. s.1;
  get = λ s. ((take_first s.0).0, ((take_first s.0).1, s.1));
  nack = λ m requeue s. (if requeue then m ∷ s.0 else s.0, s.1);
  ack = λ m s. s;
  publish = λ e k m s.
      (accepts, (s.0, s.1 ++ (record { exchange = e; routing_key = k; message = m } ∷ [])));
}

list_queue-IsQueue : (accepts : Bool) → IsQueue (list_queue accepts)
list_queue-IsQueue accepts = record {
  get_empty = λ s e. ground arith;
  get_first = λ s m rest e. ground arith;
  put_back = λ m s. refl;
  drop_out = λ m s. refl;
  done_with = λ m s. refl;
  sent = λ e k m s. refl;
  get_published = λ s. refl;
  nack_published = λ m requeue s. refl;
  ack_published = λ m s. refl;
  publish_published = λ e k m s. refl;
}

abbrev message : ℕ → ℕ → Message
message id tried = record {
  message_id = id;
  routing_key = 8;
  timestamp = at 5;
  deaths = [];
  replay_count = tried;
  replayed = false;
  original_death_count = none;
  content = 0;
  valid = true;
}

abbrev two : List Message
two = message 1 0 ∷ (message 2 3 ∷ [])

abbrev not_one : Message → Bool
not_one m = not (m.message_id == 1)

abbrev queue : List Message × List Publication
queue = (two, [])

both_settled :
    replay_all (list_queue true) 3 none queue
    ≡ some (
      replays,
      record { replayed = 1; failed = 1; skipped = 0 },
      ([], record { exchange = unknown; routing_key = 8; message = resent (message 1 0) } ∷ []),
    )
unfolding replay_all replay_loop replay_one replay_parsed parse_death_info death_info settle counted
both_settled = refl

replay_all_stuck_example : replay_all (list_queue true) 1000 (some not_one) queue ≡ none
replay_all_stuck_example =
    replay_all_stuck (list_queue true) (list_queue-IsQueue true) 1000 (some not_one) (message 1 0)
      (message 2 3 ∷ []) queue refl (inl (not_one, refl, refl, refl))

inspect_messages_lem_example :
    ((t : ℕ)
      → IsReadable (message 1 0)
      → (message 1 0).timestamp ≡ at t
      → (info : DeathInfo) × (parse_death_info (message 1 0) ≡ some info)
        × ((inspect_messages (list_queue true) 2 queue).0
            ≡ some
                (replicate 2 (record { message_id = 1; info = info; timestamp = t; content = 0 })))
        × ((inspect_messages (list_queue true) 2 queue).1.0 ≡ two))
    × ((message 1 0).timestamp ≡ missing
        → ((inspect_messages (list_queue true) 2 queue).0 ≡ none)
          × ((inspect_messages (list_queue true) 2 queue).1.0 ≡ message 2 3 ∷ []))
inspect_messages_lem_example =
    inspect_messages_lem (list_queue true) (list_queue-IsQueue true) 1 (message 1 0)
      (message 2 3 ∷ []) queue refl
