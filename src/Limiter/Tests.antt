-- ===== src/Limiter/Tests.antt =====
-- Runs of the rate limiter, and its theorems at concrete stores.
use siam_siam_ecosystem.Limiter.Bursts.{passes_at, requests, passes_at_start, Hasty-starves}
use siam_siam_ecosystem.Common.{
  ℕ, none, some, true, false, ◌∷◌, [], ◌≡◌, refl, ◌*◌, ◌/◌, All, arith,
}
use siam_siam_ecosystem.Limiter.Defs.{
  Store, Limited, passes, middleware, refilled, check_limit, take_token, current, too_many,
}

-- the refill of exact arithmetic
abbrev exact : ℕ → ℕ → ℕ → ℕ
exact elapsed max window = elapsed * max / window

abbrev spent : Store
spent = (7, record { tokens = 0; count = 100; reset_time = 60_000; last_refill = 0 }) ∷ []

runs_middleware :
    ((middleware exact 60_000 100 false true 300 (some 7) spent).0.reply ≡ too_many 60)
    × ((middleware exact 60_000 100 false true 600 (some 7) spent).0.reply ≡ passes)
    × ((middleware exact 60_000 100 false true 300 none spent).0.reply ≡ passes)
unfolding middleware check_limit take_token refilled current
runs_middleware = (refl, refl, refl)

-- Asked every 599 milliseconds, the bucket refills nothing, though it earns a token each 600.
Hasty-starves_example :
    All (λ refused. refused ≡ true) (requests exact 7 60_000 100 (599 ∷ 1198 ∷ 1797 ∷ []) spent)
Hasty-starves_example =
    Hasty-starves exact 7 60_000 100 (599 ∷ 1198 ∷ 1797 ∷ []) spent refl refl (omega arith)

passes_at_start_example : passes_at exact 7 60_000 3 60_001 5 spent ≡ 3
passes_at_start_example = passes_at_start exact 7 60_000 3 60_001 5 spent (omega arith) refl

abbrev idle : Limited
idle = record { queue = []; calls_in_window = 0; window_start = 0 }
