-- ===== src/Retry/Defs.antt =====
-- `class RetryPolicy`. Delays are floats, a parameter; `Math.random()` gives two of them for each
-- attempt. An error that is thrown is `none` where it is
-- undefined or null; other errors are objects. Waiting is the list of the delays slept.
use Prim.Native.String.{String}
use text.Mathlib.Text.{◌==◌ as str_eq}
use siam_siam_ecosystem.Common.{
  ℕ, zero, suc, ◌+◌, ◌^◌, Bool, true, false, not, ◌||◌, Option, none, some, List, [], ◌∷◌, ◌++◌,
  leb, if◌then◌else◌, inl, ◌⊎◌, inr,
}
use siam_siam_ecosystem.Double.{Double}

-- a code or a status: a text or a number
pub data Code : Type 0 where
  word : String → Code
  number : ℕ → Code

pub record Failure : Type 0 where
  pub code : Option Code
  pub status_code : Option Code
  pub status : Option Code
  pub name : Option Code
  pub type : Option Code

-- `a || b`, where '' and 0 are falsy
abbrev pub or_else : Option Code → Option Code → Option Code
or_else none b = b
or_else (some (word s)) b = if str_eq s "" then b else some (word s)
or_else (some (number zero)) b = b
or_else (some (number (suc n))) b = some (number (suc n))

-- `set.has(c)` for a set of texts: a number is no text
unfoldable pub has_text : List String → Option Code → Bool
has_text [] c = false
has_text (t ∷ ts) none = false
has_text (t ∷ ts) (some (number n)) = false
has_text (t ∷ ts) (some (word s)) = str_eq s t || has_text ts (some (word s))

abbrev pub transient_errors : List String
transient_errors =
    "ECONNRESET"
    ∷ ("ECONNREFUSED"
        ∷ ("ETIMEDOUT"
            ∷ ("ENOTFOUND"
                ∷ ("EAI_AGAIN"
                    ∷ ("EPIPE"
                        ∷ ("ESOCKETTIMEDOUT"
                            ∷ ("EHOSTUNREACH" ∷ ("429" ∷ ("503" ∷ ("504" ∷ []))))))))))

abbrev pub permanent_errors : List String
permanent_errors =
    "400"
    ∷ ("401"
        ∷ ("403"
            ∷ ("404"
                ∷ ("409"
                    ∷ ("422"
                        ∷ ("ValidationError"
                            ∷ ("AuthenticationError"
                                ∷ ("AuthorizationError"
                                    ∷ ("NotFoundError" ∷ ("ConflictError" ∷ []))))))))))

pub data Strategy : Type 0 where
  fixed linear decorrelated exponential : Strategy

-- the end of `shouldRetry`, from the network errors on; `none` is the `TypeError` of calling
-- `startsWith` of a number
unfoldable pub network_error : Failure → Option Bool
network_error e = elim e.code [
  | none ↦ some true
  | some c ↦ elim c [ word s ↦ some true | number n ↦ elim n [ zero ↦ some true | suc _ ↦ none ] ]
]

unfoldable pub classify : Failure → Option Bool
classify e =
    let error_code = or_else e.code (or_else e.status_code e.status) in
    let error_type = or_else e.name e.type in
    if has_text permanent_errors error_code || has_text permanent_errors error_type
    then some false
    else if has_text transient_errors error_code || has_text transient_errors error_type
    then some true
    else network_error e

module _ (d : Double) where
  open d use {D, of_ℕ, add, sub, mul, div, round, min_of, lt}

  -- 0 and `NaN` are falsy
  abbrev pub or_number : Option D → D → D
  or_number none b = b
  or_number (some a) b = if lt a (of_ℕ 0) || lt (of_ℕ 0) a then a else b

  pub record Options : Type 0 where
    pub max_retries : ℕ
    pub base_delay : Option D
    pub max_delay : Option D
    pub strategy : Option Strategy
    pub use_jitter : Option Bool
    pub jitter_factor : Option D
    pub should_retry : Option (Option Failure → ℕ → Bool)

  pub record Policy : Type 0 where
    pub max_retries : ℕ
    pub base_delay : D
    pub max_delay : D
    pub strategy : Strategy
    pub use_jitter : Bool
    pub jitter_factor : D
    pub custom : Option (Option Failure → ℕ → Bool)

  unfoldable pub new : Options → Policy
  new o = record {
    max_retries = elim o.max_retries [ zero ↦ 5 | suc n ↦ suc n ];
    base_delay = or_number o.base_delay (of_ℕ 1000);
    max_delay = or_number o.max_delay (of_ℕ 60_000);
    strategy = elim o.strategy [ none ↦ exponential | some s ↦ s ];
    use_jitter = elim o.use_jitter [ none ↦ true | some b ↦ b ];
    jitter_factor = or_number o.jitter_factor (div (of_ℕ 1) (of_ℕ 4));
    custom = o.should_retry;
  }

  -- the delay by the strategy, at a number that `Math.random()` gives
  unfoldable pub raw_delay : Policy → D → ℕ → D
  raw_delay p random attempt =
      let doubled = mul p.base_delay (of_ℕ (2 ^ attempt)) in
      elim p.strategy [
        | fixed ↦ p.base_delay
        | linear ↦ mul p.base_delay (of_ℕ (attempt + 1))
        | decorrelated ↦
            add p.base_delay (mul random (sub (min_of doubled p.max_delay) p.base_delay))
        | exponential ↦ doubled
      ]

  unfoldable pub jittered : Policy → D → D → D
  jittered p random delay =
      if p.use_jitter
      then add delay (mul (mul delay p.jitter_factor) (sub (mul random (of_ℕ 2)) (of_ℕ 1)))
      else delay

  -- `getDelay`; -1 is `none`
  unfoldable pub get_delay : Policy → D × D → ℕ → Option D
  unfolding raw_delay jittered
  get_delay p random attempt =
      if leb p.max_retries attempt
      then none
      else some (round (jittered p random.1 (min_of (raw_delay p random.0 attempt) p.max_delay)))

  -- `shouldRetry`; `none` is a `TypeError`
  unfoldable pub should_retry : Policy → Option Failure → ℕ → Option Bool
  should_retry p error attempt = if leb p.max_retries attempt then some false else elim p.custom [
    | some custom ↦ some (custom error attempt)
    | none ↦ elim error [ none ↦ some true | some e ↦ classify e ]
  ]

  -- what a call of the function that is retried does
  pub data Attempt (V : Type 0) : Type 0 where
    returns : V → Attempt V
    fails : Option Failure → Attempt V

  pub data Result (V : Type 0) : Type 0 where
    returned : V → Result V
    -- the error is thrown on
    thrown : Option Failure → Result V
    -- 'Max retries exceeded'
    exceeded : Result V
    type_error : Result V

  pub record Run (V : Type 0) : Type 0 where
    pub result : Result V
    pub calls : ℕ
    pub slept : List D

  -- a delay that is below 0
  abbrev pub is_negative : Option D → Bool
  is_negative none = true
  is_negative (some x) = lt x (of_ℕ 0)

  -- the error 'Max retries exceeded', whose text takes the message of the last error
  abbrev pub give_up : {V : Type 0} → Option Failure → Result V
  give_up none = type_error
  give_up (some e) = exceeded

  -- how the loop of `execute` ends at an attempt, or the delay after which it goes on
  unfoldable pub verdict : {V : Type 0} → Policy → D × D → ℕ → Attempt V → Result V ⊎ D
  verdict p random attempt (returns v) = inl (returned v)
  verdict p random attempt (fails e) = elim (should_retry p e attempt) [
    | none ↦ inl type_error
    | some retry ↦ if not retry then inl (thrown e) else elim (get_delay p random attempt) [
      | none ↦ inl (give_up e)
      | some delay ↦ if lt delay (of_ℕ 0) then inl (give_up e) else inr delay
    ]
  ]

  -- the error that is caught, if one is
  abbrev pub caught : {V : Type 0} → Attempt V → Option Failure
  caught (returns v) = none
  caught (fails e) = e

  -- the loop of `execute`, with the attempts that are left, the last error and the delays so far
  unfoldable pub execute_from :
      {V : Type 0}
      → Policy
      → (ℕ → D × D)
      → (ℕ → Attempt V)
      → (left attempt : ℕ) (last_error : Option Failure) → List D
      → Run V
  execute_from p random fn zero attempt last_error slept = record {
    result = thrown last_error;
    calls = attempt;
    slept = slept;
  }
  execute_from p random fn (suc left) attempt last_error slept =
      elim (verdict p (random attempt) attempt (fn attempt)) [
        | inl r ↦ record { result = r; calls = attempt + 1; slept = slept }
        | inr delay ↦
            execute_from p random fn left (attempt + 1) (caught (fn attempt))
              (slept ++ (delay ∷ []))
      ]

  -- `execute`, where the attempts are `fn 0`, `fn 1`, …
  unfoldable pub execute : {V : Type 0} → Policy → (ℕ → D × D) → (ℕ → Attempt V) → Run V
  execute p random fn = execute_from p random fn (suc p.max_retries) 0 none []
