-- ===== src/DeadLetters/Replay.antt =====
-- What the broker's documentation promises of a queue with one consumer, and what `replayAll` then does.
use siam_siam_ecosystem.Time.{Time, missing, at, no_date}
use siam_siam_ecosystem.DeadLetters.Defs.{
  Broker, Death, DeathInfo, Publication, death_time, last_info, death_info, Message, replay_one,
  replay_loop, counted, Counts, parse_death_info, replays, fails, skips, target_exchange,
  max_replay_attempts, resent, Outcome, threw, replay_parsed,
}
use siam_siam_ecosystem.Common.{
  List, ap, ◌++◌, ◌∷◌, ℕ, Bool, ◌≡◌, true, truthy, if◌then◌else◌, [], none, ◌+◌, ◌&&◌, some, false,
  ltb, arith, suc, ◌≢◌, Option, refl,
}

-- A message that is put back stands at its old place, and a published message does not come back to
-- the queue during the call; what is published on the channel is recorded in its order.
pub record IsQueue (b : Broker) : Type 0 where
  pub get_empty : (s : b.State) → b.ready s ≡ [] → ((b.get s).0 ≡ none) × (b.ready (b.get s).1 ≡ [])
  pub get_first :
      (s : b.State) (m : Message) (rest : List Message)
      → b.ready s ≡ m ∷ rest
      → ((b.get s).0 ≡ some m) × (b.ready (b.get s).1 ≡ rest)
  pub put_back : (m : Message) (s : b.State) → b.ready (b.nack m true s) ≡ m ∷ b.ready s
  pub drop_out : (m : Message) (s : b.State) → b.ready (b.nack m false s) ≡ b.ready s
  pub done_with : (m : Message) (s : b.State) → b.ready (b.ack m s) ≡ b.ready s
  pub sent : (e k : ℕ) (m : Message) (s : b.State) → b.ready (b.publish e k m s).1 ≡ b.ready s
  pub get_published : (s : b.State) → b.published (b.get s).1 ≡ b.published s
  pub nack_published :
      (m : Message) (requeue : Bool) (s : b.State)
      → b.published (b.nack m requeue s) ≡ b.published s
  pub ack_published : (m : Message) (s : b.State) → b.published (b.ack m s) ≡ b.published s
  pub publish_published :
      (e k : ℕ) (m : Message) (s : b.State)
      → b.published (b.publish e k m s).1
        ≡ b.published s ++ (record { exchange = e; routing_key = k; message = m } ∷ [])

-- the publications succeed
abbrev pub Accepts : Broker → Type 0
Accepts b = (e k : ℕ) (m : Message) (s : b.State) → (b.publish e k m s).0 ≡ true

-- The death header has no time, or one that is a date.
abbrev pub IsDated : List Death → Type 0
IsDated [] = Unit
IsDated (last_death ∷ _) = last_death.time ≢ no_date

-- The content is JSON, and the death header can be parsed.
abbrev pub IsReadable : Message → Type 0
IsReadable m = (m.valid ≡ true) × IsDated m.deaths

abbrev pub AllReadable : List Message → Type 0
AllReadable [] = Unit
AllReadable (m ∷ ms) = IsReadable m × AllReadable ms

death_time_lem : (t : Time) → t ≢ no_date → (time : Option ℕ) × (death_time t ≡ some time)
death_time_lem missing h = (none, refl)
death_time_lem (at t) h = (some t, refl)
death_time_lem no_date h = absurd (h refl)

death_info_lem :
    (deaths : List Death) (k : ℕ)
    → IsDated deaths
    → (info : DeathInfo) × (death_info deaths k ≡ some info)
unfolding death_info
death_info_lem [] k h = (_, refl)
death_info_lem (last_death ∷ _) k h =
    let (time, e) = death_time_lem last_death.time h in (last_info last_death k time, rw e)

pub parse_death_info_lem :
    (m : Message) → IsReadable m → (info : DeathInfo) × (parse_death_info m ≡ some info)
unfolding parse_death_info
parse_death_info_lem m h = death_info_lem m.deaths m.routing_key h.1

-- a message that `replayAll` sends once more
abbrev pub can_replay : DeathInfo → Message → Bool
can_replay info m = truthy info.original_routing_key && ltb m.replay_count max_replay_attempts

abbrev pub is_replayable : Message → Bool
is_replayable m = elim (parse_death_info m) [ none ↦ false | some info ↦ can_replay info m ]

abbrev pub replayable : List Message → ℕ
replayable [] = 0
replayable (m ∷ ms) = (if is_replayable m then 1 else 0) + replayable ms

-- what becomes of a message: it goes to its old exchange with its old routing key, marked as replayed
-- and with one replay more
abbrev pub publication : DeathInfo → Message → Publication
publication info m = record {
  exchange = target_exchange info;
  routing_key = info.original_routing_key;
  message = resent m;
}

abbrev pub publication_of : Message → List Publication
publication_of m = elim (parse_death_info m) [
  | none ↦ []
  | some info ↦ if can_replay info m then publication info m ∷ [] else []
]

abbrev pub publications : List Message → List Publication
publications [] = []
publications (m ∷ ms) = publication_of m ++ publications ms

abbrev pub outcome_of : Message → Outcome
outcome_of m = if is_replayable m then replays else fails

abbrev pub count_all : List Message → Counts → Counts
count_all [] c = c
count_all (m ∷ ms) c = count_all ms (counted (outcome_of m) c)

pub is_replayable_lem :
    (m : Message) (info : DeathInfo)
    → parse_death_info m ≡ some info
    → is_replayable m ≡ can_replay info m
is_replayable_lem m info e =
    ap (λ (p : Option DeathInfo). elim p as (λ x. Bool) [ none ↦ false | some i ↦ can_replay i m ])
      e

-- a round on a message that can be read, without a filter
pub replay_one-parsed :
    (b : Broker) (m : Message) (info : DeathInfo) (s : b.State)
    → m.valid ≡ true
    → parse_death_info m ≡ some info
    → replay_one b none m s ≡ replay_parsed b info m s
unfolding replay_one
replay_one-parsed b m info s v e = ground (arith, v, e)

-- a round that does not throw goes on with the next one
pub replay_loop_step :
    (b : Broker) (filter : Option (Message → Bool)) (m : Message) (o : Outcome) (fuel : ℕ)
    (c : Counts) (s : b.State)
    → (b.get s).0 ≡ some m
    → (replay_one b filter m (b.get s).1).0 ≡ o
    → o ≢ threw
    → replay_loop b (suc fuel) filter c s
      ≡ replay_loop b fuel filter (counted o c) (replay_one b filter m (b.get s).1).1
unfolding replay_loop
replay_loop_step b filter m threw fuel c s g r n = absurd (n refl)
replay_loop_step b filter m replays fuel c s g r n =
    rw (g, replay_loop) (rw (r, replay_loop) (rw r))
replay_loop_step b filter m fails fuel c s g r n = rw (g, replay_loop) (rw (r, replay_loop) (rw r))
replay_loop_step b filter m skips fuel c s g r n = rw (g, replay_loop) (rw (r, replay_loop) (rw r))
