-- ===== src/Engine/Conversions.antt =====
-- What the tracker holds of conversions and commissions, over all calls of the engine.
use siam_siam_ecosystem.Engine.Defs.{passed, self_referral, duplicate_device, duplicate_ip}
use siam_siam_ecosystem.Tracker.Once.{EachOnce, track_event-EachOnce}
use siam_siam_ecosystem.Dict.{lookup}
use siam_siam_ecosystem.Common.{
  ℕ, ◌≡◌, [], none, ◌⊎◌, or_default, Option-cases, length, arith, some, Bool-cases, inr, ◌≤◌, inl,
  refl, ◌==◌, ◌&&◌, leb, ltb,
}
use Prim.Native.Nat.{ℕ}
use siam_siam_ecosystem.Engine.Defs.{
  Engine, Config, create_program, create_referral, Context, track_conversion, process_commission,
  deactivate_referral, settle_conversion, pay, create_for, find_by_code, Program, convert, Fraud,
  Referral, no_data, user_referrals, default, active, program_of, default_config, suspicion,
}
use siam_siam_ecosystem.Double.{Double}
use siam_siam_ecosystem.Tracker.Defs.{
  converted, commission_earned, created, deactivated, get_events, Tracker, Data, of_type,
  track_event,
}

-- the calls, where a context of a conversion names no user by `userId`
pub data Step (d : Double) (s : Engine d) : Engine d → Type 0 where
  creates_program : (id : ℕ) (c : Config d) → Step d s (create_program d id c s)
  creates :
      (now id referrer program given generated : ℕ)
      → Step d s (create_referral d now id referrer program given generated s).1
  converts :
      (now code referred : ℕ) (c : Context d)
      → c.user_id ≡ none
      → Step d s (track_conversion d now code referred c s).1
  processes : (now id : ℕ) (action : d.D) → Step d s (process_commission d now id action s).1
  deactivates : (now id : ℕ) → Step d s (deactivate_referral d now id s)

pub data Reach (d : Double) (s : Engine d) : Engine d → Type 0 where
  start : Reach d s s
  next : {t u : Engine d} → Reach d s t → Step d t u → Reach d s u

abbrev pub new : (d : Double) → Engine d
new d = record { programs = []; referrals = []; tracker = [] }

module _ (d : Double) (once : ℕ) (kind : (once ≡ converted) ⊎ (once ≡ commission_earned)) where
  abbrev Kept : Tracker d → Type 0
  Kept t = EachOnce d once t

  kept :
      (now id type : ℕ) (info : Data d) (t : Tracker d)
      → info.user_id ≡ none
      → Kept t
      → Kept (track_event d now id type info t)
  kept now id type info t u h = track_event-EachOnce d once now id type info t kind u h

  create_for-Kept :
      (now id referrer program code : ℕ) (p : Program d) (s : Engine d)
      → Kept s.tracker
      → Kept (create_for d now id referrer program code p s).1.tracker
  unfolding create_for
  create_for-Kept now id referrer program code p s h = elim (Bool-cases p.is_active) [
    | inr off ↦ simp off h
    | inl on ↦
        elim (Bool-cases
          (leb p.max_referrals_per_user (length (user_referrals d referrer program s.referrals)))) [
            | inl full ↦ simp (on, full) h
            | inr room ↦ simp (on, room) (kept now id created (no_data d) s.tracker refl h)
          ]
  ]

  create_referral-Kept :
      (now id referrer program given generated : ℕ) (s : Engine d)
      → Kept s.tracker
      → Kept (create_referral d now id referrer program given generated s).1.tracker
  unfolding create_referral create_program
  create_referral-Kept now id referrer program given generated s h =
      let code = or_default given generated in
      elim (Option-cases (lookup program s.programs)) [
        | inr (p, e) ↦ rw (e, create_referral) (create_for-Kept now id referrer program code p s h)
        | inl e ↦ elim (Bool-cases (program == default)) [
          | inr other ↦ rw (e, other, create_referral) h
          | inl is_default ↦
              rw (e, is_default, create_referral)
                (create_for-Kept now id referrer program code
                  (program_of d default (default_config d))
                  (create_program d default (default_config d) s) h)
        ]
      ]

  convert-Kept :
      (v : Fraud d) (now referred : ℕ) (c : Context d) (r : Referral d) (s : Engine d)
      → c.user_id ≡ none
      → Kept s.tracker
      → Kept (settle_conversion d v now referred c r s).1.tracker
  unfolding settle_conversion convert
  convert-Kept passed now referred c r s u h = kept now r.id converted _ s.tracker u h
  convert-Kept self_referral now referred c r s u h = h
  convert-Kept duplicate_device now referred c r s u h = h
  convert-Kept duplicate_ip now referred c r s u h = h

  track_conversion-Kept :
      (now code referred : ℕ) (c : Context d) (s : Engine d)
      → c.user_id ≡ none
      → Kept s.tracker
      → Kept (track_conversion d now code referred c s).1.tracker
  unfolding track_conversion
  track_conversion-Kept now code referred c s u h =
      elim (Option-cases (find_by_code d code s.referrals)) [
        | inl e ↦ rw (e, track_conversion) h
        | inr (r, e) ↦ elim (Bool-cases (r.status == active)) [
          | inr off ↦ simp (e, off, track_conversion) h
          | inl on ↦ elim (Bool-cases (ltb r.expires_at now)) [
            | inl late ↦ simp (e, on, late, track_conversion) h
            | inr early ↦
                simp (e, on, early, track_conversion)
                  (convert-Kept (suspicion d r referred c s) now referred c r s u h)
          ]
        ]
      ]

  process_commission-Kept :
      (now id : ℕ) (action : d.D) (s : Engine d)
      → Kept s.tracker
      → Kept (process_commission d now id action s).1.tracker
  unfolding process_commission pay
  process_commission-Kept now id action s h = elim (Option-cases (lookup id s.referrals)) [
    | inl e ↦ rw (e, process_commission) h
    | inr (r, e) ↦ elim (Option-cases (lookup r.program_id s.programs)) [
      | inl f ↦ simp (e, f, process_commission) h
      | inr (p, f) ↦
          elim (Bool-cases
            (d.lt (d.of_ℕ 0) p.min_purchase_amount && d.lt action p.min_purchase_amount)) [
              | inl low ↦ simp (e, f, low, process_commission) h
              | inr high ↦
                  simp (e, f, high, process_commission)
                    (kept now r.id commission_earned _ s.tracker refl h)
            ]
    ]
  ]

  deactivate_referral-Kept :
      (now id : ℕ) (s : Engine d) → Kept s.tracker → Kept (deactivate_referral d now id s).tracker
  unfolding deactivate_referral
  deactivate_referral-Kept now id s h = elim (Option-cases (lookup id s.referrals)) [
    | inl e ↦ rw (e, deactivate_referral) h
    | inr (r, e) ↦
        rw (e, deactivate_referral) (kept now id deactivated (no_data d) s.tracker refl h)
  ]

  Step-Kept : {s t : Engine d} → Step d s t → Kept s.tracker → Kept t.tracker
  unfolding create_program
  Step-Kept (creates_program id c) h = h
  Step-Kept {s} (creates now id referrer program given generated) h =
      create_referral-Kept now id referrer program given generated s h
  Step-Kept {s} (converts now code referred c u) h = track_conversion-Kept now code referred c s u h
  Step-Kept {s} (processes now id action) h = process_commission-Kept now id action s h
  Step-Kept {s} (deactivates now id) h = deactivate_referral-Kept now id s h

  Reach-Kept : {s t : Engine d} → Kept s.tracker → Reach d s t → Kept t.tracker
  Reach-Kept h start = h
  Reach-Kept h (next r st) = Step-Kept st (Reach-Kept h r)

  new-Kept : Kept (new d).tracker
  unfolding of_type
  new-Kept id = record { unnamed = tt; once = omega arith }

-- In every state that calls can lead to from the start, as long as no conversion's context has a
-- `userId`, the tracker holds at most one conversion and at most one commission for each referral,
-- however many conversions were reported as successful and commissions as paid: the events that the
-- engine records carry no user identifier, and all but the first are taken for duplicates.
pub reached_once :
    (d : Double) (id : ℕ) {s : Engine d}
    → Reach d (new d) s
    → (length (get_events d id (some converted) s.tracker) ≤ 1)
      × (length (get_events d id (some commission_earned) s.tracker) ≤ 1)
unfolding get_events
reached_once d id r = (
  (Reach-Kept d converted (inl refl) (new-Kept d converted (inl refl)) r id).once,
  (Reach-Kept d commission_earned (inr refl) (new-Kept d commission_earned (inr refl)) r id).once,
)
