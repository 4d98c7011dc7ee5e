-- ===== src/Retry/Tests.antt =====
-- Runs of the retry policy, and its theorems at concrete policies.
use siam_siam_ecosystem.Retry.Classes.{should_retry_status}
use siam_siam_ecosystem.Retry.Attempts.{AllFail, EndsAt, execute_lem}
use siam_siam_ecosystem.Double.{thousandths}
use siam_siam_ecosystem.Common.{
  ℕ, none, ◌≤◌, some, ◌≡◌, true, false, refl, ◌+◌, arith, length, zero, ◌∷◌, inl, [],
}
use Prim.Native.Nat.{ℕ, suc}
use siam_siam_ecosystem.Retry.Defs.{
  Policy, should_retry, execute, Failure, has_text, Attempt, execute_from, classify, word, verdict,
  fails, number, exponential, network_error, get_delay, returns, returned,
}

abbrev policy : Policy thousandths
policy = record {
  max_retries = 2;
  base_delay = 1000;
  max_delay = 60_000;
  strategy = exponential;
  use_jitter = false;
  jitter_factor = 250;
  custom = none;
}

abbrev not_found : Failure
not_found = record {
  code = none;
  status_code = some (number 404);
  status = none;
  name = none;
  type = none;
}

abbrev refused : Failure
refused = record {
  code = some (word "ECONNREFUSED");
  status_code = none;
  status = none;
  name = none;
  type = none;
}

-- two failures and a success
abbrev third_time : ℕ → Attempt thousandths ℕ
third_time zero = fails (some refused)
third_time (suc zero) = fails (some refused)
third_time (suc (suc n)) = returns 7

slept_twice :
    execute thousandths policy (λ n. (0, 0)) third_time
    ≡ record { result = returned 7; calls = 3; slept = 1000 ∷ (2000 ∷ []) }
unfolding execute execute_from verdict should_retry classify has_text network_error get_delay
slept_twice = refl

-- the text of the same status is not retried
text_status :
    should_retry thousandths policy (some (record not_found { status_code = some (word "404") })) 0
    ≡ some false
unfolding should_retry classify has_text
text_status = refl

should_retry_status_example : should_retry thousandths policy (some not_found) 1 ≡ some true
unfolding has_text
should_retry_status_example =
    should_retry_status thousandths policy 403 1 not_found (omega arith) refl refl (inl refl) refl

execute_lem_example :
    (n m : ℕ) × (n ≤ 2)
    × AllFail thousandths policy (λ n. (0, 0)) third_time n 0
    × (m ≡ n)
    × EndsAt thousandths policy
        (λ n. (0, 0))
        third_time
        m
        (execute thousandths policy (λ n. (0, 0)) third_time).result
    × ((execute thousandths policy (λ n. (0, 0)) third_time).calls ≡ n + 1)
    × (length (execute thousandths policy (λ n. (0, 0)) third_time).slept ≡ n)
execute_lem_example = execute_lem thousandths policy (λ n. (0, 0)) third_time
