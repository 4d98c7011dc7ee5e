-- ===== src/DeadLetters/Stuck.antt =====
-- Where the handler meets the same message again and again, because a message that is put back stands
-- at its old place.
use Prim.Native.Nat.{ℕ, suc}
use siam_siam_ecosystem.Common.{
  ℕ, subst, sym, Option, List, Bool, Option-cases, ◌≡◌, ◌≢◌, true, ◌∷◌, false, some, arith, none,
  replicate, ◌⊎◌, inl, inr, ◌∙◌, ap, zero, refl,
}
use siam_siam_ecosystem.DeadLetters.Replay.{
  IsQueue, is_replayable, replay_loop_step, replay_one-parsed, is_replayable_lem, IsReadable,
  parse_death_info_lem, can_replay,
}
use siam_siam_ecosystem.Time.{at, missing}
use siam_siam_ecosystem.DeadLetters.Defs.{
  Broker, Outcome, replay_one, inspect_messages, replay_all, replay_loop, Message, settle, threw,
  Counts, replay_parsed, DeathInfo, Inspected, inspected, parse_death_info, target_exchange, resent,
  counted,
}

module _ (b : Broker) (q : IsQueue b) where
  -- a message that a round puts back is the first again
  replay_loop_stuck :
      (filter : Option (Message → Bool)) (m : Message) (rest : List Message)
      → ((s : b.State)
          → b.ready s ≡ rest
          → ((replay_one b filter m s).0 ≢ threw)
            × (b.ready (replay_one b filter m s).1 ≡ m ∷ rest))
      → (fuel : ℕ) (c : Counts) (s : b.State) → b.ready s ≡ m ∷ rest
      → replay_loop b fuel filter c s ≡ none
  unfolding replay_loop
  replay_loop_stuck filter m rest back zero c s e = refl
  replay_loop_stuck filter m rest back (suc fuel) c s e =
      let g = q.get_first s m rest e in
      let r = back (b.get s).1 g.1 in
      let o = (replay_one b filter m (b.get s).1).0 in
      replay_loop_step b filter m o fuel c s g.0 refl r.0
      ∙ replay_loop_stuck filter m rest back fuel (counted o c)
          (replay_one b filter m (b.get s).1).1 r.1

  refused :
      (filter : Message → Bool) (m : Message) (rest : List Message)
      → m.valid ≡ true
      → filter m ≡ false
      → (s : b.State) → b.ready s ≡ rest
      → ((replay_one b (some filter) m s).0 ≢ threw)
        × (b.ready (replay_one b (some filter) m s).1 ≡ m ∷ rest)
  unfolding replay_one
  refused filter m rest v f s e = ground (arith, q.put_back m s)

  parsed_not_sent :
      (info : DeathInfo) (m : Message) (rest : List Message)
      → can_replay info m ≡ true
      → ((e k : ℕ) (n : Message) (s : b.State) → (b.publish e k n s).0 ≡ false)
      → (s : b.State) → b.ready s ≡ rest
      → ((replay_parsed b info m s).0 ≢ threw) × (b.ready (replay_parsed b info m s).1 ≡ m ∷ rest)
  unfolding replay_parsed settle
  parsed_not_sent info m rest can full s e =
      let x = target_exchange info in
      let k = info.original_routing_key in
      ground (
        arith,
        full x k (resent m) s,
        q.put_back m (b.publish x k (resent m) s).1,
        q.sent x k (resent m) s,
      )

  not_sent :
      (m : Message) (rest : List Message)
      → IsReadable m
      → is_replayable m ≡ true
      → ((e k : ℕ) (n : Message) (s : b.State) → (b.publish e k n s).0 ≡ false)
      → (s : b.State) → b.ready s ≡ rest
      → ((replay_one b none m s).0 ≢ threw) × (b.ready (replay_one b none m s).1 ≡ m ∷ rest)
  unfolding replay_one
  not_sent m rest h can full s at_rest =
      let (info, e) = parse_death_info_lem m h in
      subst (λ (x : Outcome × b.State). (x.0 ≢ threw) × (b.ready x.1 ≡ m ∷ rest))
        (sym (replay_one-parsed b m info s h.0 e))
        (parsed_not_sent info m rest (sym (is_replayable_lem m info e) ∙ can) full s at_rest)

  -- When the first message of the queue has a content that is JSON and is refused by the filter, or
  -- when there is no filter, the first message has such a content and a death header that can be
  -- parsed, it can be replayed, and every publication reports backpressure, `replayAll` never ends:
  -- it is not over after any number of rounds.
  pub replay_all_stuck :
      (fuel : ℕ) (filter : Option (Message → Bool)) (m : Message) (rest : List Message)
      (s : b.State)
      → b.ready s ≡ m ∷ rest
      → ((f : Message → Bool) × (filter ≡ some f) × (m.valid ≡ true) × (f m ≡ false))
        ⊎ ((filter ≡ none)
            × IsReadable m
            × (is_replayable m ≡ true)
            × ((e k : ℕ) (n : Message) (s : b.State) → (b.publish e k n s).0 ≡ false))
      → replay_all b fuel filter s ≡ none
  unfolding replay_all
  replay_all_stuck fuel filter m rest s e (inl (f, is_f, v, no_match)) =
      rw is_f (replay_loop_stuck (some f) m rest (refused f m rest v no_match) fuel _ s e)
  replay_all_stuck fuel filter m rest s e (inr (is_none, h, can, full)) =
      rw is_none (replay_loop_stuck none m rest (not_sent m rest h can full) fuel _ s e)

  inspect_messages_shows :
      (limit : ℕ) (m : Message) (shown : Inspected) (rest : List Message) (s : b.State)
      → b.ready s ≡ m ∷ rest
      → inspected m ≡ some shown
      → ((inspect_messages b limit s).0 ≡ some (replicate limit shown))
        × (b.ready (inspect_messages b limit s).1 ≡ b.ready s)
  unfolding inspect_messages
  inspect_messages_shows zero m shown rest s e v = (refl, refl)
  inspect_messages_shows (suc limit) m shown rest s e v =
      let g = q.get_first s m rest e in
      let s' = b.nack m true (b.get s).1 in
      let back = q.put_back m (b.get s).1 ∙ ap (λ ms. m ∷ ms) g.1 in
      let ih = inspect_messages_shows limit m shown rest s' back v in
      ground (arith, ih, g.0, back, e, v)

  inspect_messages_throws :
      (limit : ℕ) (m : Message) (rest : List Message) (s : b.State)
      → b.ready s ≡ m ∷ rest
      → inspected m ≡ none
      → ((inspect_messages b (suc limit) s).0 ≡ none)
        × (b.ready (inspect_messages b (suc limit) s).1 ≡ rest)
  unfolding inspect_messages
  inspect_messages_throws limit m rest s e v =
      let g = q.get_first s m rest e in ground (arith, g.0, g.1, v)

  inspected-none : (m : Message) → m.timestamp ≡ missing → inspected m ≡ none
  unfolding inspected
  inspected-none m h = elim (Option-cases (parse_death_info m)) [
    | inl e ↦ ground (arith, e)
    | inr (info, e) ↦ ground (arith, e)
  ]

  inspected-some :
      (m : Message) (t : ℕ) (info : DeathInfo)
      → m.valid ≡ true
      → m.timestamp ≡ at t
      → parse_death_info m ≡ some info
      → inspected m
        ≡ some
            (record { message_id = m.message_id; info = info; timestamp = t; content = m.content })
  unfolding inspected
  inspected-some m t info v h e = ground (arith, v, h, e)

  -- What `inspectMessages` gives for a queue that is not empty, with a limit that is not 0. If the
  -- first message has a content that is JSON, a death header that can be parsed and a timestamp that
  -- is a date, it is shown as often as the limit says, and no other message is, and the queue is left
  -- as it was. If the first message has no timestamp, the call throws, and the message is not put
  -- back.
  pub inspect_messages_lem :
      (limit : ℕ) (m : Message) (rest : List Message) (s : b.State)
      → b.ready s ≡ m ∷ rest
      → ((t : ℕ)
          → IsReadable m
          → m.timestamp ≡ at t
          → (info : DeathInfo) × (parse_death_info m ≡ some info)
            × ((inspect_messages b (suc limit) s).0
                ≡ some (
                    replicate (suc limit) (record {
                      message_id = m.message_id;
                      info = info;
                      timestamp = t;
                      content = m.content;
                    })))
            × (b.ready (inspect_messages b (suc limit) s).1 ≡ b.ready s))
        × (m.timestamp ≡ missing
            → ((inspect_messages b (suc limit) s).0 ≡ none)
              × (b.ready (inspect_messages b (suc limit) s).1 ≡ rest))
  inspect_messages_lem limit m rest s e = (
    (λ t h is_at.
        let (info, parsed) = parse_death_info_lem m h in
        let shown = inspected-some m t info h.0 is_at parsed in
        let shows = inspect_messages_shows (suc limit) m _ rest s e shown in
        (info, parsed, shows.0, shows.1)),
    (λ none_there. inspect_messages_throws limit m rest s e (inspected-none m none_there)),
  )
