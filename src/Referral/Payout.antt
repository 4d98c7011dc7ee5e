-- ===== src/Referral/Payout.antt =====
-- `calculateNetworkCommissions` pays the users above the purchaser within the limits.
use siam_siam_ecosystem.Common.{
  ℕ, zero, suc, ◌+◌, ◌≤◌, ◌<◌, ◌≡◌, refl, some, List, [], ◌∷◌, ◌++◌, Option-cases, inl, inr, ap,
  sym, ◌∙◌, arith, All, All-append, ltb, Bool-cases, truthy,
}
use mathlib.Core.Path.{subst}
use siam_siam_ecosystem.Dict.{Dict}
use siam_siam_ecosystem.Double.{Double}
use siam_siam_ecosystem.Referral.Defs.{
  Mlm, Commission, Payout, Loop, parent, rate_at, pay_up, start, calculate_network_commissions,
  round_cents, share, push_commission,
}

abbrev pub percent_sum : {F : Double} → List (Commission F) → ℕ
percent_sum [] = 0
percent_sum (c ∷ cs) = percent_sum cs + c.rate

-- The levels of the commissions rise from above `low`, up to `top` at most.
abbrev pub Rising : {F : Double} → (low top : ℕ) → List (Commission F) → Type 0
Rising low top [] = low ≤ top
Rising low top (c ∷ cs) = (low < c.level) × Rising c.level top cs

Rising-up :
    {F : Double} (low top higher : ℕ) (cs : List (Commission F))
    → top ≤ higher
    → Rising low top cs
    → Rising low higher cs
Rising-up low top higher [] h r = omega arith
Rising-up low top higher (c ∷ cs) h (l, r) = (l, Rising-up c.level top higher cs h r)

Rising-append :
    {F : Double} (low top : ℕ) (cs : List (Commission F)) (c : Commission F)
    → top < c.level
    → Rising low top cs
    → Rising low c.level (cs ++ (c ∷ []))
Rising-append low top [] c h r = (omega arith, omega arith)
Rising-append low top (x ∷ xs) c h (l, r) = (l, Rising-append x.level top xs c h r)

-- `v` is `n` steps above `u`.
pub data Above (net : Dict ℕ) (u : ℕ) : ℕ → ℕ → Type 0 where
  self : Above net u 0 u
  up : (n k v p : ℕ) → k ≡ n + 1 → Above net u n v → parent net v ≡ some p → Above net u k p

module _ (F : Double) (m : Mlm) (purchase : F.D) (purchaser : ℕ) where
  -- A commission goes to the user that stands its level above the purchaser, at the level's rate.
  pub record IsDue (c : Commission F) : Type 0 where
    pub placed : Above m.network purchaser c.level c.referrer
    pub rated : c.rate ≡ rate_at m c.level
    pub paid : 0 < c.rate
    pub exact : c.amount ≡ round_cents F (share F purchase c.rate)

  pub record IsPaid (top : ℕ) (s : Loop F) : Type 0 where
    pub due : All IsDue s.commissions
    pub summed : percent_sum s.commissions ≡ s.percent
    pub bounded : s.percent ≤ m.max_total_commission
    pub levels : s.level ≤ top
    pub rising : Rising 0 s.level s.commissions

  percent_sum-append :
      (xs : List (Commission F)) (c : Commission F)
      → percent_sum (xs ++ (c ∷ [])) ≡ percent_sum xs + c.rate
  percent_sum-append [] c = omega arith
  percent_sum-append (x ∷ xs) c = omega (arith, percent_sum-append xs c)

  push_commission-IsPaid :
      (top current referrer rate : ℕ) (s : Loop F)
      → s.level + 1 ≤ top
      → s.percent + rate ≤ m.max_total_commission
      → 0 < rate
      → rate ≡ rate_at m (s.level + 1)
      → Above m.network purchaser (s.level + 1) referrer
      → IsPaid top s
      → IsPaid top (push_commission F purchase current referrer rate s)
  unfolding push_commission
  push_commission-IsPaid top current referrer rate s l b p e a i = record {
    due =
        All-append IsDue s.commissions _ i.due
          (record { placed = a; rated = e; paid = p; exact = refl }, tt);
    summed = percent_sum-append s.commissions _ ∙ ap (λ n. n + rate) i.summed;
    bounded = b;
    levels = l;
    rising = Rising-append 0 s.level s.commissions _ (omega arith) i.rising;
  }

  pay_up-IsPaid :
      (rounds top current : ℕ) (s : Loop F)
      → s.level + rounds ≤ top
      → Above m.network purchaser s.level current
      → IsPaid top s
      → IsPaid top (pay_up F rounds m purchase current s)
  unfolding pay_up push_commission
  pay_up-IsPaid zero top current s l a i = i
  pay_up-IsPaid (suc rounds) top current s l a i =
      elim (Bool-cases (ltb s.percent m.max_total_commission)) [
        | inr full ↦ rw (full, pay_up) i
        | inl room ↦ elim (Option-cases (parent m.network current)) [
          | inl at_top ↦ rw (room, at_top, pay_up) i
          | inr (p, e) ↦
              let rate = rate_at m (s.level + 1) in
              let counted : Loop F = record s { level = s.level + 1 } in
              let higher = up s.level (s.level + 1) current p refl a e in
              let i' : IsPaid top counted = record {
                due = i.due;
                summed = i.summed;
                bounded = i.bounded;
                levels = omega arith;
                rising = Rising-up 0 s.level (s.level + 1) s.commissions (omega arith) i.rising;
              } in
              elim (Bool-cases (truthy rate)) [
                | inr free ↦
                    rw (room, e, free, pay_up)
                      (pay_up-IsPaid rounds top p counted (omega arith) higher i')
                | inl charged ↦ elim (Bool-cases (ltb m.max_total_commission (s.percent + rate))) [
                  | inl over ↦ rw (room, e, charged, over, pay_up) i'
                  | inr within ↦
                      rw (room, e, charged, within, pay_up)
                        (pay_up-IsPaid rounds top p (push_commission F purchase current p rate s)
                          (omega arith) higher
                          (push_commission-IsPaid top current p rate s (omega arith) (ground arith)
                            (ground arith) refl higher i))
                ]
              ]
        ]
      ]

-- A purchase that is paid for pays, for each commission, the user who stands the commission's level
-- above the purchaser, at that level's rate, which is not 0, with the amount rounded to cents; the
-- rates sum to the reported total, which keeps to the limit; no more levels are climbed than
-- `maxDepth`, and the commissions' levels rise from each to the next, so that a level pays at most
-- once.
pub calculate_network_commissions-IsDue :
    (F : Double) (m : Mlm) (purchaser : ℕ) (purchase : F.D) {p : Payout F}
    → calculate_network_commissions F m purchaser purchase ≡ some p
    → All (IsDue F m purchase purchaser) p.commissions
      × (percent_sum p.commissions ≡ p.total_percent)
      × (p.total_percent ≤ m.max_total_commission)
      × (p.levels_traversed ≤ m.max_depth)
      × Rising 0 p.levels_traversed p.commissions
unfolding calculate_network_commissions
calculate_network_commissions-IsDue F m u purchase {p} e =
    let paid =
      pay_up-IsPaid F m purchase u m.max_depth m.max_depth u (start F) (omega arith) self (record {
        due = tt;
        summed = refl;
        bounded = omega arith;
        levels = omega arith;
        rising = omega arith;
      }) in
    let same_list : (pay_up F m.max_depth m purchase u (start F)).commissions ≡ p.commissions =
      ground arith in
    let same_level : (pay_up F m.max_depth m purchase u (start F)).level ≡ p.levels_traversed =
      ground arith in
    (
      subst (λ cs. All (IsDue F m purchase u) cs) same_list paid.due,
      ap percent_sum (sym same_list) ∙ paid.summed ∙ ground arith,
      ground (arith, paid.bounded),
      ground (arith, paid.levels),
      subst (λ cs. Rising 0 p.levels_traversed cs) same_list
          (subst (λ l. Rising 0 l (pay_up F m.max_depth m purchase u (start F)).commissions)
            same_level paid.rising),
    )
