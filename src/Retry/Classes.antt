-- ===== src/Retry/Classes.antt =====
-- Which errors are retried.
use Prim.Native.String.{String}
use siam_siam_ecosystem.Double.{Double}
use siam_siam_ecosystem.Retry.Defs.{
  should_retry, classify, has_text, Code, network_error, number, Policy, Failure, permanent_errors,
  or_else, transient_errors,
}
use siam_siam_ecosystem.Common.{
  ◌∷◌, [], ℕ, Option, some, suc, ◌<◌, ◌≡◌, none, ◌⊎◌, false, true, inl, List, arith, [], inr, refl,
}
use Prim.Native.Nat.{ℕ, suc}

-- a truthy number
abbrev pub status : ℕ → Option Code
status n = some (number (suc n))

has_text-number : (ts : List String) (n : ℕ) → has_text ts (some (number n)) ≡ false
unfolding has_text
has_text-number [] n = refl
has_text-number (t ∷ ts) n = refl

-- An error that carries a number as its HTTP status, in `statusCode` or in `status`, and neither a
-- code nor a name or type that the sets hold, is retried whatever the number is, as long as attempts
-- are left and no custom rule is given: the sets hold the statuses as texts.
pub should_retry_status :
    (d : Double) (p : Policy d) (n attempt : ℕ) (e : Failure)
    → attempt < p.max_retries
    → p.custom ≡ none
    → e.code ≡ none
    → ((e.status_code ≡ status n) ⊎ ((e.status_code ≡ none) × (e.status ≡ status n)))
    → has_text permanent_errors (or_else e.name e.type) ≡ false
    → should_retry d p (some e) attempt ≡ some true
unfolding should_retry classify network_error
should_retry_status d p n attempt e h custom code (inl at) name =
    ground
      (arith, has_text-number permanent_errors (suc n), has_text-number transient_errors (suc n))
should_retry_status d p n attempt e h custom code (inr (none_there, at)) name =
    ground
      (arith, has_text-number permanent_errors (suc n), has_text-number transient_errors (suc n))
