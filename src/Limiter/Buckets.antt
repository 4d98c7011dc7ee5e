-- ===== src/Limiter/Buckets.antt =====
-- One call of `_checkLimit`: the bucket it leaves, the verdict, and the other keys.
use siam_siam_ecosystem.Common.{
  ℕ, ◌+◌, ◌-◌, ◌≡◌, ◌≤◌, ◌<◌, Bool, true, false, Option, none, some, if◌then◌else◌, ◌==◌, arith,
  Option-cases, inl, inr, truthy, not, ltb,
}
use siam_siam_ecosystem.Dict.{lookup, lookup-insert, Each, Each-insert, Each-lookup}
use siam_siam_ecosystem.Limiter.Defs.{Bucket, Store, current, refilled, take_token, check_limit}

abbrev pub HasAtMost : ℕ → Bucket → Type 0
HasAtMost max b = b.tokens ≤ max

-- there is no bucket, or its window is over
abbrev pub not_running : ℕ → Option Bucket → Bool
not_running now none = true
not_running now (some b) = ltb b.reset_time now

module _ (refill : ℕ → ℕ → ℕ → ℕ) where
  next_bucket-HasAtMost :
      (now window max : ℕ) (o : Option Bucket)
      → HasAtMost max (current now window max o)
      → HasAtMost max (take_token (refilled refill now window max (current now window max o))).1
  unfolding refilled take_token
  next_bucket-HasAtMost now window max o h = ground arith

  current-HasAtMost :
      (now key window max : ℕ) (store : Store)
      → Each (HasAtMost max) store
      → HasAtMost max (current now window max (lookup key store))
  unfolding current
  current-HasAtMost now key window max store h = elim (Option-cases (lookup key store)) [
    | inl missing ↦ rw (missing, current) (omega arith)
    | inr (b, there) ↦ let small = Each-lookup (HasAtMost max) key b store h there in ground arith
  ]

  -- However the refill is rounded, no bucket ever holds more tokens than the limit.
  pub check_limit-HasAtMost :
      (now key window max : ℕ) (store : Store)
      → Each (HasAtMost max) store
      → Each (HasAtMost max) (check_limit refill now key window max store).1
  unfolding check_limit
  check_limit-HasAtMost now key window max store h =
      Each-insert (HasAtMost max) key _ store
        (next_bucket-HasAtMost now window max (lookup key store)
          (current-HasAtMost now key window max store h))
        h

  -- A request is refused exactly when its bucket, renewed or refilled, has no token. It is counted
  -- either way, uses a token if there is one, and leaves the buckets of other keys as they are.
  pub check_limit_lem :
      (now key window max other : ℕ) (store : Store)
      → let b = refilled refill now window max (current now window max (lookup key store)) in
        let (v, store') = check_limit refill now key window max store in
        (v.exceeded ≡ not (truthy b.tokens))
        × (v.count ≡ b.count + 1)
        × (lookup other store' ≡ (
            if other == key
            then some (record b { tokens = b.tokens - 1; count = b.count + 1 })
            else lookup other store))
  unfolding check_limit take_token
  check_limit_lem now key window max other store =
      let b = refilled refill now window max (current now window max (lookup key store)) in
      ground (arith, lookup-insert other key (take_token b).1 store)

  -- The first request of a key, or the first after its window is over, starts a window: it passes if
  -- the limit is above 0.
  pub check_limit_renews :
      (now key window max : ℕ) (store : Store)
      → 0 < max
      → not_running now (lookup key store) ≡ true
      → let (v, store') = check_limit refill now key window max store in
        (v ≡ record { exceeded = false; count = 1; reset_time = now + window })
        × (lookup key store'
            ≡ some (record {
              tokens = max - 1;
              count = 1;
              reset_time = now + window;
              last_refill = now;
            }))
  unfolding check_limit take_token refilled current
  check_limit_renews now key window max store pos over = elim (Option-cases (lookup key store)) [
    | inl missing ↦ ground (
      arith,
      lookup-insert key key
          (record { tokens = max - 1; count = 1; reset_time = now + window; last_refill = now })
          store,
    )
    | inr (b, there) ↦ ground (
      arith,
      lookup-insert key key
          (record { tokens = max - 1; count = 1; reset_time = now + window; last_refill = now })
          store,
    )
  ]
