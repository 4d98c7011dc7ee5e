-- ===== src/Retry/Attempts.antt =====
-- How often `execute` calls the function, and how it ends.
use Prim.Native.Nat.{ℕ, suc}
use siam_siam_ecosystem.Common.{
  ℕ, ◌≡◌, inr, ◌≤◌, ◌+◌, zero, inl, ◌⊎◌, Option, ◌<◌, some, true, false, none, Option-cases, arith,
  List, subst, sym, length, Bool-cases, refl, ◌++◌, ◌∷◌, [], Sum-cases, length-append,
}
use siam_siam_ecosystem.Retry.Defs.{
  Policy, Attempt, verdict, should_retry, Result, returned, returns, Failure, fails, thrown,
  is_negative, get_delay, exceeded, execute_from, type_error, caught, Run, execute, give_up,
}
use siam_siam_ecosystem.Double.{Double}

module _ (d : Double) {V : Type 0} (p : Policy d) (random : ℕ → d.D × d.D)
    (fn : ℕ → Attempt d V) where
  -- the attempt fails with an error that is retried
  abbrev pub FailsAt : ℕ → Type 0
  FailsAt k = (e : Option Failure) × (fn k ≡ fails e) × (should_retry d p e k ≡ some true)

  -- so do `n` attempts from one on
  abbrev pub AllFail : ℕ → ℕ → Type 0
  AllFail zero k = Unit
  AllFail (suc n) k = FailsAt k × AllFail n (k + 1)

  -- what the result of a run says of its last attempt
  abbrev pub EndsAt : ℕ → Result d V → Type 0
  EndsAt k (returned v) = fn k ≡ returns v
  EndsAt k (thrown e) = (fn k ≡ fails e) × (should_retry d p e k ≡ some false)
  EndsAt k exceeded =
      (e : Failure) × (fn k ≡ fails (some e))
      × (should_retry d p (some e) k ≡ some true)
      × (is_negative d (get_delay d p (random k) k) ≡ true)
  EndsAt k type_error =
      ((e : Option Failure) × (fn k ≡ fails e) × (should_retry d p e k ≡ none))
      ⊎ ((fn k ≡ fails none)
          × (should_retry d p none k ≡ some true)
          × (is_negative d (get_delay d p (random k) k) ≡ true))

  abbrev Verdict : ℕ → Result d V ⊎ d.D → Type 0
  Verdict k (inl r) = EndsAt k r
  Verdict k (inr _) = FailsAt k × (k < p.max_retries)

  should_retry_lt :
      (e : Option Failure) (k : ℕ) → should_retry d p e k ≡ some true → k < p.max_retries
  unfolding should_retry
  should_retry_lt e k h = ground arith

  give_up_lem :
      (k : ℕ) (e : Option Failure)
      → fn k ≡ fails e
      → should_retry d p e k ≡ some true
      → is_negative d (get_delay d p (random k) k) ≡ true
      → EndsAt k (give_up d e)
  give_up_lem k none f t low = inr (f, t, low)
  give_up_lem k (some e) f t low = (e, f, t, low)

  verdict_retry :
      (k : ℕ) (e : Option Failure) (delay : Option d.D)
      → fn k ≡ fails e
      → should_retry d p e k ≡ some true
      → get_delay d p (random k) k ≡ delay
      → Verdict k (verdict d p (random k) k (fails e))
  unfolding verdict
  verdict_retry k e none f t g =
      let v : verdict d p (random k) k (fails e) ≡ inl (give_up d e) = ground arith in
      subst (λ r. Verdict k r) (sym v) (give_up_lem k e f t (rw g))
  verdict_retry k e (some delay) f t g = elim (Bool-cases (d.lt delay (d.of_ℕ 0))) [
    | inl low ↦
        let v : verdict d p (random k) k (fails e) ≡ inl (give_up d e) = ground arith in
        subst (λ r. Verdict k r) (sym v) (give_up_lem k e f t (rw g low))
    | inr high ↦
        let v : verdict d p (random k) k (fails e) ≡ inr delay = ground arith in
        subst (λ r. Verdict k r) (sym v) ((e, f, t), should_retry_lt e k t)
  ]

  verdict_of : (k : ℕ) (a : Attempt d V) → fn k ≡ a → Verdict k (verdict d p (random k) k a)
  unfolding verdict
  verdict_of k (returns v) f = f
  verdict_of k (fails e) f = elim (Option-cases (should_retry d p e k)) [
    | inl t ↦
        let v : verdict d p (random k) k (fails e) ≡ inl type_error = ground arith in
        subst (λ r. Verdict k r) (sym v) (inl (e, f, t))
    | inr (true, t) ↦ verdict_retry k e (get_delay d p (random k) k) f t refl
    | inr (false, t) ↦
        let v : verdict d p (random k) k (fails e) ≡ inl (thrown e) = ground arith in
        subst (λ r. Verdict k r) (sym v) (f, t)
  ]

  -- After `n` failures that are retried, the next attempt is the last, and the run says so.
  abbrev pub EndsAfter : (k slept n : ℕ) → Run d V → Type 0
  EndsAfter k slept n run =
      AllFail n k
      × ((m : ℕ) × (m ≡ k + n) × EndsAt m run.result × (run.calls ≡ m + 1))
      × (length run.slept ≡ slept + n)

  abbrev run_from : (left k : ℕ) → Option Failure → List d.D → Run d V
  run_from left k last_error slept = execute_from d p random fn left k last_error slept

  run_inl :
      (left k : ℕ) (last_error : Option Failure) (slept : List d.D) (r : Result d V)
      → verdict d p (random k) k (fn k) ≡ inl r
      → run_from (suc left) k last_error slept ≡ record { result = r; calls = k + 1; slept = slept }
  unfolding execute_from
  run_inl left k last_error slept r v = rw (v, execute_from)

  run_inr :
      (left k : ℕ) (last_error : Option Failure) (slept : List d.D) (x : d.D)
      → verdict d p (random k) k (fn k) ≡ inr x
      → run_from (suc left) k last_error slept
        ≡ run_from left (k + 1) (caught d (fn k)) (slept ++ (x ∷ []))
  unfolding execute_from
  run_inr left k last_error slept x v = rw (v, execute_from)

  ends_now :
      (left k : ℕ) (last_error : Option Failure) (slept : List d.D) (r : Result d V)
      → verdict d p (random k) k (fn k) ≡ inl r
      → EndsAfter k (length slept) 0 (run_from (suc left) k last_error slept)
  ends_now left k last_error slept r v =
      subst (λ run. EndsAfter k (length slept) 0 run) (sym (run_inl left k last_error slept r v))
        (
          tt,
          (k, omega arith, subst (λ o. Verdict k o) v (verdict_of k (fn k) refl), refl),
          omega arith,
        )

  fails_here :
      (k : ℕ) (x : d.D) → verdict d p (random k) k (fn k) ≡ inr x → FailsAt k × (k < p.max_retries)
  fails_here k x v = subst (λ o. Verdict k o) v (verdict_of k (fn k) refl)

  ends_later :
      (left k n : ℕ) (last_error : Option Failure) (slept : List d.D) (x : d.D)
      → verdict d p (random k) k (fn k) ≡ inr x
      → EndsAfter
          (k + 1)
          (length (slept ++ (x ∷ [])))
          n
          (run_from left (k + 1) (caught d (fn k)) (slept ++ (x ∷ [])))
      → EndsAfter k (length slept) (suc n) (run_from (suc left) k last_error slept)
  ends_later left k n last_error slept x v later =
      let (all, (m, m_is, ends, calls), waits) = later in
      subst (λ run. EndsAfter k (length slept) (suc n) run)
        (sym (run_inr left k last_error slept x v))
        (
          ((fails_here k x v).0, all),
          (m, omega arith, ends, calls),
          omega (arith, length-append slept (x ∷ [])),
        )

  execute_from_lem :
      (left k : ℕ) (last_error : Option Failure) (slept : List d.D)
      → k + left ≡ p.max_retries
      → (n : ℕ) × (n ≤ left) × EndsAfter k (length slept) n (run_from (suc left) k last_error slept)
  execute_from_lem zero k last_error slept h = elim (Sum-cases (verdict d p (random k) k (fn k))) [
    | inl (r, v) ↦ (0, omega arith, ends_now 0 k last_error slept r v)
    | inr (x, v) ↦ absurd (omega (arith, (fails_here k x v).1))
  ]
  execute_from_lem (suc left) k last_error slept h =
      elim (Sum-cases (verdict d p (random k) k (fn k))) [
        | inl (r, v) ↦ (0, omega arith, ends_now (suc left) k last_error slept r v)
        | inr (x, v) ↦
            let (n, few, later) =
              execute_from_lem left (k + 1) (caught d (fn k)) (slept ++ (x ∷ [])) (omega arith) in
            (suc n, omega arith, ends_later (suc left) k n last_error slept x v later)
      ]

  -- `execute` always ends, after at most one attempt more than there are retries: the attempts before
  -- the last one fail with errors that are retried, one delay is slept after each of them, and the
  -- result is the value of the last attempt if it returns, its error if that is not to be retried,
  -- 'Max retries exceeded' only if its error is an object and is retried and the delay is negative, or
  -- a `TypeError`: of classifying the error, or of reading the message of an error that is undefined
  -- or null where the delay is negative.
  pub execute_lem :
      (n m : ℕ) × (n ≤ p.max_retries)
      × AllFail n 0
      × (m ≡ n)
      × EndsAt m (execute d p random fn).result
      × ((execute d p random fn).calls ≡ n + 1)
      × (length (execute d p random fn).slept ≡ n)
  unfolding execute
  execute_lem =
      let (n, few, (all, (m, m_is, ends, calls), waits)) =
        execute_from_lem p.max_retries 0 none [] (omega arith) in
      (n, m, few, all, omega arith, ends, omega arith, omega arith)
