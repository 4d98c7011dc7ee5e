-- ===== src/Limiter/Calls.antt =====
-- The limiter for functions: what runs at once and what waits.
use siam_siam_ecosystem.Common.{
  ℕ, ◌+◌, ◌-◌, ◌≡◌, ◌≤◌, ◌++◌, Bool, [], ◌∷◌, arith, ltb, ◌⊎◌, List, Option, some, sym, inl, ◌∙◌,
  ap, inr, refl, none,
}
use mathlib.Core.List.{append-nil, append_assoc, List}
use siam_siam_ecosystem.Limiter.Defs.{Limited, runs, waits, call, Called, fire}

-- what happens to the wrapper, in order
pub data Event : Type 0 where
  called : ℕ → ℕ → Event
  timer : Event

module _ (max_calls per_interval : ℕ) where
  abbrev pub is_over : ℕ → Limited → Bool
  is_over now s = ltb per_interval (now - s.window_start)

  -- No more than `maxCalls` calls run at once in a window; a call beyond that waits, at most as long
  -- as the window, behind all that wait already.
  pub call_lem :
      (now arg : ℕ) (s : Limited)
      → s.calls_in_window ≤ max_calls
      → s.window_start ≤ now
      → let (c, s') = call max_calls per_interval now arg s in
        (s'.calls_in_window ≤ max_calls)
        × (((c ≡ runs arg) × (s'.queue ≡ s.queue))
            ⊎ ((c ≡ waits (per_interval - (now - s'.window_start)))
                × (s'.calls_in_window ≡ max_calls)
                × (now ≤ s'.window_start + per_interval)
                × (s'.queue ≡ s.queue ++ (arg ∷ []))))
  unfolding call
  call_lem now arg s h w = ground arith

  -- the calls that wait, the queued calls that the timers make, and the state, after a history of
  -- calls (a time and an argument) and timers
  abbrev waiting : Called → List ℕ → ℕ → List ℕ
  waiting (runs a) rest arg = rest
  waiting (waits d) rest arg = arg ∷ rest

  abbrev made : Option ℕ → List ℕ → List ℕ
  made none rest = rest
  made (some a) rest = a ∷ rest

  unfoldable pub queued_by : List Event → Limited → List ℕ
  queued_by [] s = []
  queued_by (called now arg ∷ es) s =
      let (c, s') = call max_calls per_interval now arg s in waiting c (queued_by es s') arg
  queued_by (timer ∷ es) s = queued_by es (fire s).1

  unfoldable pub made_by : List Event → Limited → List ℕ
  made_by [] s = []
  made_by (called now arg ∷ es) s = made_by es (call max_calls per_interval now arg s).1
  made_by (timer ∷ es) s = made (fire s).0 (made_by es (fire s).1)

  unfoldable pub after : List Event → Limited → Limited
  after [] s = s
  after (called now arg ∷ es) s = after es (call max_calls per_interval now arg s).1
  after (timer ∷ es) s = after es (fire s).1

  call_cases :
      (now arg : ℕ) (s : Limited)
      → let (c, s') = call max_calls per_interval now arg s in
        ((c ≡ runs arg) × (s'.queue ≡ s.queue))
        ⊎ ((c ≡ waits (per_interval - (now - s'.window_start)))
            × (s'.queue ≡ s.queue ++ (arg ∷ [])))
  unfolding call
  call_cases now arg s = ground arith

  call_queue :
      (now arg : ℕ) (s : Limited) (rest : List ℕ)
      → let (c, s') = call max_calls per_interval now arg s in
        s'.queue ++ rest ≡ s.queue ++ waiting c rest arg
  call_queue now arg s rest = elim (call_cases now arg s) [
    | inl (e, q) ↦ rw (e, q) refl
    | inr (e, q) ↦ rw (e, q) (append_assoc s.queue (arg ∷ []) rest)
  ]

  made-append : (o : Option ℕ) (xs ys : List ℕ) → made o xs ++ ys ≡ made o (xs ++ ys)
  made-append none xs ys = refl
  made-append (some a) xs ys = refl

  fire_queue :
      (s : Limited) (rest : List ℕ) → made (fire s).0 ((fire s).1.queue ++ rest) ≡ s.queue ++ rest
  unfolding fire
  fire_queue s rest = front s.queue refl
    where
      front :
          (q : List ℕ) → s.queue ≡ q → made (fire s).0 ((fire s).1.queue ++ rest) ≡ s.queue ++ rest
      front [] e = rw (e, fire) (ap (λ q. q ++ rest) e)
      front (a ∷ q) e = rw (e, fire) refl

  -- Queued calls are made in the order of the calls: those that the timers have made, followed by
  -- those still in the queue, are the ones that were there followed by those that had to wait.
  pub queue_in_order :
      (es : List Event) (s : Limited)
      → made_by es s ++ (after es s).queue ≡ s.queue ++ queued_by es s
  unfolding made_by after queued_by
  queue_in_order [] s = sym (append-nil s.queue)
  queue_in_order (called now arg ∷ es) s =
      let (c, s') = call max_calls per_interval now arg s in
      queue_in_order es s' ∙ call_queue now arg s (queued_by es s')
  queue_in_order (timer ∷ es) s =
      let (o, s') = fire s in
      made-append o (made_by es s') (after es s').queue
      ∙ ap (made o) (queue_in_order es s')
      ∙ fire_queue s (queued_by es s')
