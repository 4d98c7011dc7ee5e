-- ===== src/Limiter/Bursts.antt =====
-- Many requests of one key: at one instant, and faster than the refill.
use siam_siam_ecosystem.Common.{
  ℕ, zero, suc, ◌+◌, ◌-◌, ◌≡◌, ◌≤◌, ◌<◌, refl, Bool, true, some, List, [], ◌∷◌, if◌then◌else◌,
  arith, truthy, not, min, ◌∙◌, All,
}
use siam_siam_ecosystem.Dict.{lookup, insert, lookup-insert_self}
use siam_siam_ecosystem.Limiter.Defs.{Bucket, Store, current, refilled, take_token, check_limit}
use siam_siam_ecosystem.Limiter.Buckets.{check_limit_renews, not_running}

take_token_keeps :
    (b : Bucket)
    → ((take_token b).1.last_refill ≡ b.last_refill)
      × ((take_token b).1.reset_time ≡ b.reset_time)
      × ((if (take_token b).0 then 0 else 1) + (take_token b).1.tokens ≡ b.tokens)
      × ((take_token b).0 ≡ not (truthy b.tokens))
unfolding take_token
take_token_keeps b = ground arith

module _ (refill : ℕ → ℕ → ℕ → ℕ) (key window max : ℕ) where
  -- requests at the given times, first to last: their verdicts
  unfoldable pub requests : List ℕ → Store → List Bool
  requests [] store = []
  requests (t ∷ ts) store =
      let (v, store') = check_limit refill t key window max store in v.exceeded ∷ requests ts store'

  -- how many of `n` requests at one instant pass
  unfoldable pub passes_at : ℕ → ℕ → Store → ℕ
  passes_at now zero store = 0
  passes_at now (suc n) store =
      let (v, store') = check_limit refill now key window max store in
      (if v.exceeded then 0 else 1) + passes_at now n store'

  -- With a bucket refilled just now, whose window is not over, nothing is refilled.
  settled :
      (now : ℕ) (store : Store) {b : Bucket}
      → lookup key store ≡ some b
      → b.last_refill ≡ now
      → now ≤ b.reset_time
      → refilled refill now window max (current now window max (lookup key store)) ≡ b
  unfolding refilled current
  settled now store there same running = ground arith

  passes_at_running :
      (now n : ℕ) (store : Store) (b : Bucket)
      → lookup key store ≡ some b
      → b.last_refill ≡ now
      → now ≤ b.reset_time
      → passes_at now n store ≡ min n b.tokens
  unfolding passes_at check_limit
  passes_at_running now zero store b there same running = omega arith
  passes_at_running now (suc n) store b there same running =
      rw (settled now store there same running) (
        ground (
          arith,
          take_token_keeps b,
          passes_at_running now n (insert key (take_token b).1 store) (take_token b).1
              (lookup-insert_self key (take_token b).1 store)
              (let k = take_token_keeps b in k.0 ∙ same)
              (let k = take_token_keeps b in omega arith),
        ))

  -- Of `n` requests at the instant that starts a window, the first `max` pass and the rest are refused.
  pub passes_at_start :
      (now n : ℕ) (store : Store)
      → 0 < max
      → not_running now (lookup key store) ≡ true
      → passes_at now n store ≡ min n max
  unfolding passes_at
  passes_at_start now zero store pos over = omega arith
  passes_at_start now (suc n) store pos over =
      let (v, there) = check_limit_renews refill now key window max store pos over in
      let rest =
        passes_at_running now n (check_limit refill now key window max store).1
          (record { tokens = max - 1; count = 1; reset_time = now + window; last_refill = now })
          there refl (omega arith) in
      rw (v, rest) (omega arith)

  -- Each request comes before the window is over, and so soon after the one before that the refill
  -- of the time between is rounded down to 0.
  abbrev pub Hasty : ℕ → ℕ → List ℕ → Type 0
  Hasty reset_time last [] = Unit
  Hasty reset_time last (t ∷ ts) =
      (last ≤ t) × (t ≤ reset_time) × (refill (t - last) max window ≡ 0) × Hasty reset_time t ts

  hasty_step :
      (t : ℕ) (store : Store) (b : Bucket)
      → lookup key store ≡ some b
      → b.tokens ≡ 0
      → b.last_refill ≤ t
      → t ≤ b.reset_time
      → refill (t - b.last_refill) max window ≡ 0
      → let (v, store') = check_limit refill t key window max store in
        (v.exceeded ≡ true)
        × (lookup key store' ≡ some (record b { count = b.count + 1; last_refill = t }))
  unfolding check_limit refilled current take_token
  hasty_step t store b there none_left le running no_refill =
      ground
        (arith, lookup-insert_self key (record b { count = b.count + 1; last_refill = t }) store)

  -- No refill is carried over: requests that come so fast that each gap refills less than one token
  -- are all refused until the window is over, once the tokens are used up.
  pub Hasty-starves :
      (ts : List ℕ) (store : Store) {b : Bucket}
      → lookup key store ≡ some b
      → b.tokens ≡ 0
      → Hasty b.reset_time b.last_refill ts
      → All (λ refused. refused ≡ true) (requests ts store)
  unfolding requests
  Hasty-starves [] store there none_left h = tt
  Hasty-starves (t ∷ ts) store {b} there none_left (le, running, no_refill, h) =
      let (refused, there') = hasty_step t store b there none_left le running no_refill in
      (refused, Hasty-starves ts (check_limit refill t key window max store).1 there' none_left h)
