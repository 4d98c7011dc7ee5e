-- ===== src/Policies/Checks.antt =====
-- When a merged policy grants a refund, and when an order can be refunded in part.
use siam_siam_ecosystem.Time.{Days, Days-cases, InTime}
use siam_siam_ecosystem.Policies.Rules.{
  check_condition_requirements, Details, exception_matches, check_exceptions, by_condition,
  by_exceptions, evaluate_by, first_exception, is_eligible, days_of, details, is_non_refundable,
}
use siam_siam_ecosystem.Policies.Contexts.{Context}
use siam_siam_ecosystem.Policies.Defs.{Condition, Exception, Policy}
use siam_siam_ecosystem.Common.{
  refl, arith, inl, inr, ◌⊎◌, List, Option, ℕ, ◌≡◌, some, ◌∷◌, true, none, ◌<◌, false, [],
  Bool-cases, ◌↔◌, Option-cases, Bool, ltb, subst, sym,
}

-- what each condition asks of an item
abbrev pub Meets : Option Condition → Details → Type 0
Meets none d = Unit
Meets (some Condition.non_refundable) d = ⊥
Meets (some Condition.unopened_or_defective) d =
    (d.is_damaged ≡ true) ⊎ ((d.is_opened ≡ false) × (d.has_original_packaging ≡ true))
Meets (some Condition.unopened) d = d.is_opened ≡ false
Meets (some Condition.unworn_with_tags) d = (d.is_damaged ≡ false) × (d.has_tags ≡ true)
Meets (some Condition.sealed) d = d.is_opened ≡ false
Meets (some Condition.unused) d = d.is_damaged ≡ false
Meets (some Condition.good_condition) d = d.is_damaged ≡ false
Meets (some Condition.case_by_case) d = Unit
Meets (some Condition.prorated) d = Unit
Meets (some (Condition.other n)) d = Unit

-- the first exception that the context matches, if any, allows the refund
abbrev pub Allows : List Exception → Context → Type 0
Allows [] c = Unit
Allows (x ∷ xs) c =
    ((exception_matches x.type c ≡ true) × (x.override ≡ true))
    ⊎ ((exception_matches x.type c ≡ false) × Allows xs c)

abbrev pub AllowsAll : Option (List Exception) → Context → Type 0
AllowsAll none c = Unit
AllowsAll (some xs) c = Allows xs c

-- the policy has no window, or one that is not 0 and that the days are within
abbrev pub InWindow : Option ℕ → Days → Type 0
InWindow none days = Unit
InWindow (some w) days = (0 < w) × InTime w days

check_condition→Meets :
    (o : Option Condition) (d : Details) → (check_condition_requirements o d).0 ≡ true → Meets o d
unfolding check_condition_requirements
check_condition→Meets none d h = tt
check_condition→Meets (some Condition.non_refundable) d h = absurd (ground arith)
check_condition→Meets (some Condition.unopened_or_defective) d h = elim (Bool-cases d.is_damaged) [
  | inl damaged ↦ inl damaged
  | inr sound ↦ inr (ground arith, ground arith)
]
check_condition→Meets (some Condition.unopened) d h = ground arith
check_condition→Meets (some Condition.unworn_with_tags) d h = (ground arith, ground arith)
check_condition→Meets (some Condition.sealed) d h = ground arith
check_condition→Meets (some Condition.unused) d h = ground arith
check_condition→Meets (some Condition.good_condition) d h = ground arith
check_condition→Meets (some Condition.case_by_case) d h = tt
check_condition→Meets (some Condition.prorated) d h = tt
check_condition→Meets (some (Condition.other n)) d h = tt

Meets→check_condition :
    (o : Option Condition) (d : Details) → Meets o d → (check_condition_requirements o d).0 ≡ true
unfolding check_condition_requirements
Meets→check_condition none d h = refl
Meets→check_condition (some Condition.non_refundable) d h = absurd h
Meets→check_condition (some Condition.unopened_or_defective) d (inl h) = ground arith
Meets→check_condition (some Condition.unopened_or_defective) d (inr h) = ground arith
Meets→check_condition (some o) d h = ground arith

-- an exception that the code finds allows the refund
abbrev OnlyAllows : Option Exception → Type 0
OnlyAllows none = Unit
OnlyAllows (some x) = x.override ≡ true

first_exception→Allows :
    (xs : List Exception) (c : Context) → OnlyAllows (first_exception xs c) → Allows xs c
unfolding first_exception
first_exception→Allows [] c h = tt
first_exception→Allows (x ∷ xs) c h = elim (Bool-cases (exception_matches x.type c)) [
  | inl e ↦ inl (e, rw e at h)
  | inr e ↦ inr (e, first_exception→Allows xs c (rw e at h))
]

Allows→first_exception :
    (xs : List Exception) (c : Context) → Allows xs c → OnlyAllows (first_exception xs c)
unfolding first_exception
Allows→first_exception [] c h = tt
Allows→first_exception (x ∷ xs) c (inl h) = rw h.0 (h.1)
Allows→first_exception (x ∷ xs) c (inr h) = rw h.0 (Allows→first_exception xs c h.1)

check_exceptions_iff :
    (p : Policy) (c : Context) → OnlyAllows (check_exceptions p c) ↔ AllowsAll p.exceptions c
unfolding check_exceptions
check_exceptions_iff p c = elim (Option-cases p.exceptions) [
  | inl e ↦ rw (e, check_exceptions) ((λ h. tt), (λ h. tt))
  | inr (xs, e) ↦
      rw (e, check_exceptions) ((first_exception→Allows xs c), (Allows→first_exception xs c))
]

-- the conditions under which a policy grants a refund
pub record IsRefundable (p : Policy) (c : Context) : Type 0 where
  pub in_window : InWindow p.return_window (days_of c)
  pub meets : Meets p.condition (details c)
  pub allowed : AllowsAll p.exceptions c

by_exceptions_iff :
    (p : Policy) (c : Context)
    → (is_eligible (by_exceptions p c) ≡ true) ↔ OnlyAllows (check_exceptions p c)
unfolding by_exceptions
by_exceptions_iff p c = elim (Option-cases (check_exceptions p c)) [
  | inl e ↦ rw (e, by_exceptions) ((λ h. tt), (λ h. refl))
  | inr (x, e) ↦ rw (e, by_exceptions) ((λ h. h), (λ h. h))
]

by_condition_iff :
    (p : Policy) (c : Context)
    → (is_eligible (by_condition p c) ≡ true)
      ↔ (Meets p.condition (details c) × AllowsAll p.exceptions c)
unfolding by_condition
by_condition_iff p c =
    let (to_allowed, of_allowed) = check_exceptions_iff p c in
    let (to_only, of_only) = by_exceptions_iff p c in
    let checked = check_condition_requirements p.condition (details c) in
    elim (Bool-cases checked.0) [
      | inl e ↦
          rw (e, by_condition)
            (
              (λ h. (check_condition→Meets p.condition (details c) e, to_allowed (to_only h))),
              (λ h. of_only (of_allowed (h.1))),
            )
      | inr e ↦
          rw (e, by_condition)
            ((λ h. cc), (λ h. absurd (cc (Meets→check_condition p.condition (details c) (h.0)))))
    ]

-- a condition that is not 'non_refundable'
abbrev is_barred : Option Condition → Bool
is_barred none = false
is_barred (some Condition.non_refundable) = true
is_barred (some _) = false

barred-Meets : (o : Option Condition) (d : Details) → is_barred o ≡ true → Meets o d → ⊥
barred-Meets none d h m = cc
barred-Meets (some Condition.non_refundable) d h m = m
barred-Meets (some Condition.unopened_or_defective) d h m = cc
barred-Meets (some o) d h m = cc

is_barred_lem :
    (o : Option Condition)
    → is_barred o
      ≡ elim o [ none ↦ false | some c ↦ elim c [ Condition.non_refundable ↦ true | _ ↦ false ] ]
is_barred_lem none = refl
is_barred_lem (some Condition.non_refundable) = refl
is_barred_lem (some o) = refl

barred :
    (p : Policy) (n : Days) (d : Details)
    → is_non_refundable p ≡ true
    → InWindow p.return_window n
    → Meets p.condition d
    → ⊥
barred p n d h w m = elim (Option-cases p.return_window) [
  | inl e ↦ barred-Meets p.condition d (ground (arith, is_barred_lem p.condition)) m
  | inr (v, e) ↦ barred-Meets p.condition d (ground (arith, is_barred_lem p.condition, rw e at w)) m
]

-- A policy grants a refund exactly when it has a return window that is not 0 and not over, or none
-- (days that are no number are never over a window),
-- the item is as its condition asks, and the first of its exceptions that the context matches, if
-- any, is one that allows refunds. So an exception never helps an item whose window is over or whose
-- condition is not met.
pub evaluate_by_iff :
    (p : Policy) (c : Context) → (is_eligible (evaluate_by p c) ≡ true) ↔ IsRefundable p c
unfolding evaluate_by
evaluate_by_iff p c =
    let (to_met, of_met) = by_condition_iff p c in
    elim (Bool-cases (is_non_refundable p)) [
      | inl e ↦
          rw (e, evaluate_by)
            ((λ h. cc), (λ h. absurd (barred p (days_of c) (details c) e (h.in_window) (h.meets))))
      | inr e ↦ elim (Option-cases p.return_window) [
        | inl none_set ↦
            rw (e, evaluate_by, none_set)
              (
                (λ h. record { in_window = tt; meets = (to_met h).0; allowed = (to_met h).1 }),
                (λ h. of_met (h.meets, h.allowed)),
              )
        | inr (w, is_w) ↦ elim (Days-cases (days_of c)) [
          | inr no_number ↦
              rw (e, evaluate_by, is_w, no_number)
                (
                  (λ h. record {
                    in_window = (ground arith, subst (λ d. InTime w d) (sym no_number) tt);
                    meets = (to_met h).0;
                    allowed = (to_met h).1;
                  }),
                  (λ h. of_met (h.meets, h.allowed)),
                )
          | inl (days, is_days) ↦ elim (Bool-cases (ltb w days)) [
            | inl over ↦
                rw (e, evaluate_by, is_w, is_days, over)
                  ((λ h. cc), (λ h. absurd (ground (arith, h.in_window))))
            | inr within ↦
                rw (e, evaluate_by, is_w, is_days, within)
                  (
                    (λ h. record {
                      in_window = (ground arith, ground arith);
                      meets = (to_met h).0;
                      allowed = (to_met h).1;
                    }),
                    (λ h. of_met (h.meets, h.allowed)),
                  )
          ]
        ]
      ]
    ]
