-- ===== src/Engine/Outcomes.antt =====
-- What the engine's calls return and change.
use siam_siam_ecosystem.Common.{
  ◌∷◌, Bool-cases, [], subst, true, leb, sym, refl, if◌then◌else◌, List, ◌==◌,
}
use siam_siam_ecosystem.Tracker.Defs.{get_events, converted, Tracker, Event}
use siam_siam_ecosystem.Dict.{Dict, lookup, insert, lookup-insert_self}
use Prim.Native.Nat.{ℕ}
use siam_siam_ecosystem.Common.{
  ℕ, ◌≡◌, length, some, ◌≤◌, ◌≢◌, ◌+◌, false, arith, ◌⊎◌, Option-cases, inl, or_default, ◌*◌, inr,
}
use siam_siam_ecosystem.Engine.Defs.{
  find_by_code, track_conversion, user_referrals, create_referral, create_for, validate_code,
  same_device, same_ip, self_referral, passed, fraud, settle_conversion, Referral, Program, convert,
  Engine, Context, active, program_not_active, inactive_referral, no_longer_active, maximum_reached,
  day, referral, fraud_check, Created,
}
use siam_siam_ecosystem.Double.{Double}

module _ (d : Double) where
  pub find_by_code_lem :
      (code : ℕ) (rs : Dict (Referral d)) (r : Referral d)
      → find_by_code d code rs ≡ some r
      → (r.code ≡ code) × (r.status ≡ active)
  unfolding find_by_code
  find_by_code_lem code [] r h = absurd (ground arith)
  find_by_code_lem code ((k, q) ∷ rs) r h = ground (arith, find_by_code_lem code rs r)

  -- A conversion is never refused as inactive, nor a code reported as no longer active: the search by
  -- code passes over referrals that are not active, which are refused as unknown codes.
  pub no_inactive_outcome :
      (now code referred : ℕ) (c : Context d) (s : Engine d)
      → ((track_conversion d now code referred c s).0 ≢ inactive_referral)
        × (validate_code d now code s ≢ no_longer_active)
  unfolding track_conversion validate_code settle_conversion convert
  no_inactive_outcome now code referred c s =
      elim (Option-cases (find_by_code d code s.referrals)) [
        | inl e ↦ (ground arith, ground arith)
        | inr (r, e) ↦
            let is_active = (find_by_code_lem code s.referrals r e).1 in
            (ground arith, ground arith)
      ]

  user_referrals-insert :
      (user program k : ℕ) (r : Referral d) (rs : Dict (Referral d))
      → length (user_referrals d user program (insert k r rs))
        ≤ length (user_referrals d user program rs) + 1
  unfolding user_referrals
  user_referrals-insert user program k r [] = ground arith
  user_referrals-insert user program k r ((j, q) ∷ rs) =
      ground (arith, user_referrals-insert user program k r rs)

  -- the ends of a creation in the program `p`
  abbrev pub EndsWell :
      (now id referrer program code : ℕ) → Program d → Engine d → Created d × Engine d → Type 0
  EndsWell now id referrer program code p s x =
      ((x.0 ≡ program_not_active) × (p.is_active ≡ false) × (x.1 ≡ s))
      ⊎ ((x.0 ≡ maximum_reached)
          × (p.max_referrals_per_user ≤ length (user_referrals d referrer program s.referrals))
          × (x.1 ≡ s))
      ⊎ ((r : Referral d) × (lookup id x.1.referrals ≡ some r)
          × (r.code ≡ code)
          × (r.referrer_id ≡ referrer)
          × (r.status ≡ active)
          × (r.expires_at ≡ now + p.referral_expiry_days * day)
          × (x.0 ≡ referral id r.code r.expires_at)
          × (length (user_referrals d referrer program x.1.referrals) ≤ p.max_referrals_per_user))

  create_for_lem :
      (now id referrer program code : ℕ) (p : Program d) (s : Engine d)
      → EndsWell now id referrer program code p s (create_for d now id referrer program code p s)
  unfolding create_for
  create_for_lem now id referrer program code p s = elim (Bool-cases p.is_active) [
    | inr off ↦ simp off (inl (refl, refl, refl))
    | inl on ↦
        elim (Bool-cases
          (leb p.max_referrals_per_user (length (user_referrals d referrer program s.referrals)))) [
            | inl full ↦ simp (on, full) (inr (inl (refl, ground arith, refl)))
            | inr room ↦
                let r : Referral d = record {
                  id = id;
                  referrer_id = referrer;
                  program_id = program;
                  code = code;
                  status = active;
                  expires_at = now + p.referral_expiry_days * day;
                  conversions = 0;
                  total_earned = d.of_ℕ 0;
                } in
                simp (on, room)
                  (inr (
                    inr (
                      r,
                      lookup-insert_self id r s.referrals,
                      refl,
                      refl,
                      refl,
                      refl,
                      refl,
                      ground (arith, user_referrals-insert referrer program id r s.referrals),
                    )))
          ]
  ]

  -- Creating a referral in a program that exists: an inactive program and a user who has reached its
  -- maximum are refused and nothing changes; otherwise the referral is stored under its identifier
  -- as active with the given code or else the generated one, it runs out after the program's days,
  -- and the user is still within the program's maximum.
  pub create_referral_lem :
      (now id referrer program given generated : ℕ) (p : Program d) (s : Engine d)
      → lookup program s.programs ≡ some p
      → EndsWell now id referrer program
          (or_default given generated)
          p
          s
          (create_referral d now id referrer program given generated s)
  unfolding create_referral
  create_referral_lem now id referrer program given generated p s e =
      let code = or_default given generated in
      let step : create_referral d now id referrer program given generated s
          ≡ create_for d now id referrer program code p s =
        rw (e, create_referral) in
      subst (λ x. EndsWell now id referrer program code p s x) (sym step)
        (create_for_lem now id referrer program code p s)

  same_device_lem : (device : ℕ) (es : List (Event d)) → same_device d device es ≡ false
  unfolding same_device
  same_device_lem device [] = refl
  same_device_lem device (e ∷ es) = same_device_lem device es

  same_ip_lem : (ip : ℕ) (es : List (Event d)) → same_ip d ip es ≡ false
  unfolding same_ip
  same_ip_lem ip [] = refl
  same_ip_lem ip (e ∷ es) = same_ip_lem ip es

  fraud_check_lem :
      (r : Referral d) (referred : ℕ) (c : Context d) (t : Tracker d)
      → fraud_check d r referred c t ≡ (if r.referrer_id == referred then self_referral else passed)
  unfolding fraud_check
  fraud_check_lem r referred c t =
      let earlier = get_events d r.id (some converted) t in
      ground (arith, same_device_lem c.device_id earlier, same_ip_lem c.ip earlier)

  -- A conversion by the code of a referral that has not run out, in a program that asks for the fraud
  -- check: whatever conversions came before, from whatever devices and addresses, and whether or not
  -- the program allows self-referrals, it is refused, and nothing changes, if the one referred is the
  -- referrer; anyone else converts. The check of devices and addresses refuses nobody.
  pub track_conversion-fraud_check :
      (now code referred : ℕ) (c : Context d) (r : Referral d) (p : Program d) (s : Engine d)
      → find_by_code d code s.referrals ≡ some r
      → now ≤ r.expires_at
      → lookup r.program_id s.programs ≡ some p
      → p.fraud_detection_enabled ≡ true
      → (r.referrer_id ≡ referred
          → track_conversion d now code referred c s ≡ (fraud self_referral, s))
        × (r.referrer_id ≢ referred
            → track_conversion d now code referred c s ≡ convert d now referred c r s)
  unfolding track_conversion settle_conversion
  track_conversion-fraud_check now code referred c r p s f h l on =
      let is_active = (find_by_code_lem code s.referrals r f).1 in
      let check = fraud_check_lem r referred c s.tracker in
      ((λ same. ground (arith, check)), (λ other. ground (arith, check)))
