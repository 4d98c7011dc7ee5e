-- ===== src/Time.antt =====
-- Times that reach the code from outside, and numbers of days counted from them.
use siam_siam_ecosystem.Common.{ℕ, ◌≤◌, ◌≡◌, ◌⊎◌, inl, inr, refl, Bool, false, ltb}

-- a time: missing, one that `new Date` takes for a date, in milliseconds, or another, which `new Date`
-- turns into an invalid date
pub data Time : Type 0 where
  missing : Time
  at : ℕ → Time
  no_date : Time

-- `a || b`
abbrev pub or_time : Time → Time → Time
or_time missing b = b
or_time (at t) b = at t
or_time no_date b = no_date

-- a number of days that is not below 0; the days since an invalid date are `NaN`
pub data Days : Type 0 where
  whole : ℕ → Days
  nan : Days

-- `days > limit`, which does not hold of `NaN`
abbrev pub exceeds : ℕ → Days → Bool
exceeds limit (whole n) = ltb limit n
exceeds limit nan = false

abbrev pub InTime : ℕ → Days → Type 0
InTime limit (whole n) = n ≤ limit
InTime limit nan = Unit

pub Days-cases : (d : Days) → ((n : ℕ) × (d ≡ whole n)) ⊎ (d ≡ nan)
Days-cases (whole n) = inl (n, refl)
Days-cases nan = inr refl
