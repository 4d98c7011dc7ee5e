-- ===== src/Limiter/Defs.antt =====
-- `class RateLimiter`. Keys and arguments are numbers, times are milliseconds, and a call reads the
-- clock once.
use siam_siam_ecosystem.Common.{
  ℕ, ◌+◌, ◌-◌, ◌/◌, Bool, true, false, not, Option, none, some, List, [], ◌∷◌, ◌++◌, ◌&&◌, ltb, leb,
  if◌then◌else◌, truthy, min,
}
use siam_siam_ecosystem.Dict.{Dict, lookup, insert, erase}

pub record Bucket : Type 0 where
  pub tokens : ℕ
  pub count : ℕ
  pub reset_time : ℕ
  pub last_refill : ℕ

abbrev pub Store : Type 0
Store = Dict Bucket

pub record Verdict : Type 0 where
  pub exceeded : Bool
  pub count : ℕ
  pub reset_time : ℕ

abbrev pub fresh : ℕ → ℕ → ℕ → Bucket
fresh now window max = record {
  tokens = max;
  count = 0;
  reset_time = now + window;
  last_refill = now;
}

-- The bucket that `_checkLimit` goes on with: the stored one, or a new one when there is none or its
-- window is over.
unfoldable pub current : ℕ → ℕ → ℕ → Option Bucket → Bucket
current now window max none = fresh now window max
current now window max (some b) = if ltb b.reset_time now then fresh now window max else b

-- `Math.max(0, a - b)` and `Math.ceil(a / 1000)`
abbrev pub ceil_seconds : ℕ → ℕ
ceil_seconds ms = (ms + 999) / 1000

-- what the middleware does with a request
pub data Reply : Type 0 where
  -- `next()`
  passes : Reply
  -- the caller's `handler`
  handled : Reply
  -- status 429, with `retryAfter` in seconds
  too_many : ℕ → Reply

pub record Response : Type 0 where
  pub limit_header : Option ℕ
  pub remaining_header : Option ℕ
  pub reset_header : Option ℕ
  pub reply : Reply

-- the end of `_checkLimit`
unfoldable pub take_token : Bucket → Bool × Bucket
take_token b =
    if truthy b.tokens
    then (false, record b { tokens = b.tokens - 1; count = b.count + 1 })
    else (true, record b { count = b.count + 1 })

-- `refill elapsed max window` is `Math.floor(elapsed * (max / windowMs))`, computed in floats.
module _ (refill : ℕ → ℕ → ℕ → ℕ) where
  unfoldable pub refilled : ℕ → ℕ → ℕ → Bucket → Bucket
  refilled now window max b =
      if ltb b.last_refill now
      then record b {
        tokens = min max (b.tokens + refill (now - b.last_refill) max window);
        last_refill = now;
      }
      else b

  -- `_checkLimit`
  unfoldable pub check_limit : ℕ → ℕ → ℕ → ℕ → Store → Verdict × Store
  check_limit now key window max store =
      let (exceeded, b) =
        take_token (refilled now window max (current now window max (lookup key store))) in
      (
        record { exceeded = exceeded; count = b.count; reset_time = b.reset_time },
        insert key b store,
      )

  -- `createMiddleware`, on a request for `key`. `key = none` is an error thrown on the way, after
  -- which the request passes without headers. The two `skip` options only change a header of a
  -- request that is refused.
  unfoldable pub middleware :
      (window max : ℕ) (has_handler headers : Bool) (now : ℕ) (key : Option ℕ)
      → Store
      → Response × Store
  middleware window max has_handler headers now none store = (
    record { limit_header = none; remaining_header = none; reset_header = none; reply = passes },
    store,
  )
  middleware window max has_handler headers now (some key) store =
      let (v, store') = check_limit now key window max store in
      (
        record {
          limit_header = if headers then some max else none;
          remaining_header = if headers then some (max - v.count) else none;
          reset_header = if headers then some (ceil_seconds v.reset_time) else none;
          reply =
              if v.exceeded
              then (if has_handler then handled else too_many (ceil_seconds (v.reset_time - now)))
              else passes;
        },
        store',
      )

pub record StatusOf : Type 0 where
  pub count : ℕ
  pub remaining : Option ℕ
  pub reset_in : Option ℕ

-- `getStatus`; the text 'unlimited' is `none`
unfoldable pub get_status : ℕ → ℕ → Store → StatusOf
get_status now key store = elim (lookup key store) [
  | none ↦ record { count = 0; remaining = none; reset_in = none }
  | some b ↦ record {
    count = b.count;
    remaining = some b.tokens;
    reset_in = some (b.reset_time - now);
  }
]

unfoldable pub reset : ℕ → Store → Store
reset key store = erase key store

-- one run of the timer that `startCleanup` starts
unfoldable pub cleanup : ℕ → Store → Store
cleanup now [] = []
cleanup now ((key, b) ∷ store) =
    if ltb b.reset_time now then cleanup now store else (key, b) ∷ cleanup now store

-- the `blockedKeys` of `getStats`
unfoldable pub blocked_keys : ℕ → Store → ℕ
blocked_keys now [] = 0
blocked_keys now ((key, b) ∷ store) =
    if not (truthy b.tokens) && ltb now b.reset_time
    then blocked_keys now store + 1
    else blocked_keys now store

-- the variables that `createFunctionLimiter` closes over
pub record Limited : Type 0 where
  pub queue : List ℕ
  pub calls_in_window : ℕ
  pub window_start : ℕ

pub data Called : Type 0 where
  -- the function is called at once
  runs : ℕ → Called
  -- the call is queued, and a timer set for the delay
  waits : ℕ → Called

-- the wrapper that `createFunctionLimiter` returns
unfoldable pub call : (max_calls per_interval now arg : ℕ) → Limited → Called × Limited
call max_calls per_interval now arg s =
    let s' : Limited =
      if ltb per_interval (now - s.window_start)
      then record s { window_start = now; calls_in_window = 0 }
      else s in
    if leb max_calls s'.calls_in_window
    then (
      waits (per_interval - (now - s'.window_start)),
      record s' { queue = s'.queue ++ (arg ∷ []) },
    )
    else (runs arg, record s' { calls_in_window = s'.calls_in_window + 1 })

-- a timer runs out: the first queued call is made
unfoldable pub fire : Limited → Option ℕ × Limited
fire s = elim s.queue [ [] ↦ (none, s) | arg ∷ rest ↦ (some arg, record s { queue = rest }) ]
