-- ===== src/Tracker/Once.antt =====
-- Conversions and commissions are recorded once for each user identifier, and the engine gives none.
use mathlib.Core.Path.{ap₂}
use siam_siam_ecosystem.Dict.{lookup, lookup-insert}
use Prim.Native.Nat.{ℕ, suc}
use siam_siam_ecosystem.Common.{
  ℕ, List, none, length, ◌++◌, ◌≡◌, Bool-cases, ◌∷◌, ◌==◌, drop, ltb, false, arith, ◌≤◌, [], true,
  ◌⊎◌, refl, zero, inl, ◌-◌, inr, if◌then◌else◌, ◌||◌, length-append, ◌&&◌, ==→eq, Option,
}
use siam_siam_ecosystem.Tracker.Defs.{
  trim, has_duplicate, track_event, of_type, Data, Event, Tracker, list_of, converted,
  max_events_per_referral, commission_earned,
}
use siam_siam_ecosystem.Double.{Double}

module _ (d : Double) where
  -- the events of this type come from no named user
  abbrev pub Unnamed : ℕ → List (Event d) → Type 0
  Unnamed type [] = Unit
  Unnamed type (e ∷ es) = ((e.type == type) ≡ true → e.info.user_id ≡ none) × Unnamed type es

  pub record IsOnce (type : ℕ) (es : List (Event d)) : Type 0 where
    pub unnamed : Unnamed type es
    pub once : length (of_type d type es) ≤ 1

  -- no event of the type is there
  none_yet :
      (type : ℕ) (es : List (Event d))
      → Unnamed type es
      → has_duplicate d type none es ≡ false
      → length (of_type d type es) ≡ 0
  unfolding has_duplicate of_type
  none_yet type [] u h = refl
  none_yet type (e ∷ es) u h = ground (arith, none_yet type es u.1)

  of_type-append :
      (type : ℕ) (es fs : List (Event d))
      → of_type d type (es ++ fs) ≡ of_type d type es ++ of_type d type fs
  unfolding of_type
  of_type-append type [] fs = refl
  of_type-append type (e ∷ es) fs = ground (arith, of_type-append type es fs)

  length-of_type-drop-le :
      (type n : ℕ) (es : List (Event d))
      → length (of_type d type (drop n es)) ≤ length (of_type d type es)
  unfolding of_type
  length-of_type-drop-le type zero es = omega arith
  length-of_type-drop-le type (suc n) [] = omega arith
  length-of_type-drop-le type (suc n) (e ∷ es) = ground (arith, length-of_type-drop-le type n es)

  Unnamed-append :
      (type : ℕ) (es fs : List (Event d))
      → Unnamed type es
      → Unnamed type fs
      → Unnamed type (es ++ fs)
  Unnamed-append type [] fs u v = v
  Unnamed-append type (e ∷ es) fs u v = (u.0, Unnamed-append type es fs u.1 v)

  Unnamed-drop : (type n : ℕ) (es : List (Event d)) → Unnamed type es → Unnamed type (drop n es)
  Unnamed-drop type zero es u = u
  Unnamed-drop type (suc n) [] u = tt
  Unnamed-drop type (suc n) (e ∷ es) u = Unnamed-drop type n es u.1

  trim-IsOnce : (type : ℕ) (es : List (Event d)) → IsOnce type es → IsOnce type (trim d es)
  unfolding trim
  trim-IsOnce type es v = elim (Bool-cases (ltb max_events_per_referral (length es))) [
    | inl long ↦
        let n = length es - max_events_per_referral in
        rw (long, trim)
          (record {
            unnamed = Unnamed-drop type n es v.unnamed;
            once = omega (arith, length-of_type-drop-le type n es, v.once);
          })
    | inr short ↦ rw (short, trim) v
  ]

  append-once :
      (type : ℕ) (e : Event d) (es : List (Event d))
      → IsOnce type es
      → ((e.type == type) ≡ true → has_duplicate d type none es ≡ false)
      → length (of_type d type (es ++ (e ∷ []))) ≤ 1
  unfolding of_type
  append-once type e es v h = elim (Bool-cases (e.type == type)) [
    | inl same_type ↦
        rw
          (
            of_type-append type es (e ∷ []),
            length-append (of_type d type es) (of_type d type (e ∷ [])),
          )
          (ground (arith, none_yet type es v.unnamed (h same_type)))
    | inr other ↦
        rw
          (
            of_type-append type es (e ∷ []),
            length-append (of_type d type es) (of_type d type (e ∷ [])),
          )
          (ground (arith, v.once))
  ]

  append-IsOnce :
      (type : ℕ) (e : Event d) (es : List (Event d))
      → IsOnce type es
      → ((e.type == type) ≡ true → has_duplicate d type none es ≡ false)
      → e.info.user_id ≡ none
      → IsOnce type (es ++ (e ∷ []))
  append-IsOnce type e es v h unnamed = record {
    unnamed = Unnamed-append type es (e ∷ []) v.unnamed ((λ _. unnamed), tt);
    once = append-once type e es v h;
  }

  abbrev pub event : (now id type : ℕ) → Data d → Event d
  event now id type info = record { referral_id = id; type = type; info = info; timestamp = now }

  -- what the call makes of the events of its referral
  abbrev pub noted : (now id type : ℕ) → Data d → List (Event d) → List (Event d)
  noted now id type info es =
      if ((type == converted) || (type == commission_earned))
        && has_duplicate d type info.user_id es
      then es
      else trim d (es ++ (event now id type info ∷ []))

  pub lookup-track_event :
      (now id type k : ℕ) (info : Data d) (t : Tracker d)
      → list_of (lookup k (track_event d now id type info t))
        ≡ (if k == id then noted now id type info (list_of (lookup id t)) else list_of (lookup k t))
  unfolding track_event
  lookup-track_event now id type k info t =
      let es = list_of (lookup id t) in
      ground (
        arith,
        lookup-insert k id es t,
        lookup-insert k id (trim d (es ++ (event now id type info ∷ []))) t,
      )

  not_noted :
      (once type : ℕ) (user : Option ℕ) (es : List (Event d))
      → (once ≡ converted) ⊎ (once ≡ commission_earned)
      → user ≡ none
      → type ≡ once
      → (((type == converted) || (type == commission_earned)) && has_duplicate d type user es)
        ≡ false
      → has_duplicate d once none es ≡ false
  not_noted once type user es kind unnamed same_type new =
      let both : has_duplicate d type user es ≡ has_duplicate d once none es =
        ap₂ (λ (n : ℕ) (u : Option ℕ). has_duplicate d n u es) same_type unnamed in
      ground arith

  noted-IsOnce :
      (once now id type : ℕ) (info : Data d) (es : List (Event d))
      → (once ≡ converted) ⊎ (once ≡ commission_earned)
      → info.user_id ≡ none
      → IsOnce once es
      → IsOnce once (noted now id type info es)
  noted-IsOnce once now id type info es kind unnamed v =
      elim (Bool-cases (
        ((type == converted) || (type == commission_earned))
        && has_duplicate d type info.user_id es)) [
          | inl dup ↦ rw dup v
          | inr new ↦ rw new (
              trim-IsOnce once _ (
                append-IsOnce once (event now id type info) es v
                  (λ same_type.
                    not_noted once type info.user_id es kind unnamed (==→eq type once same_type)
                      new)
                  unnamed))
        ]

  -- the events of every referral
  abbrev pub EachOnce : ℕ → Tracker d → Type 0
  EachOnce type t = (id : ℕ) → IsOnce type (list_of (lookup id t))

  pub track_event-EachOnce :
      (once now id type : ℕ) (info : Data d) (t : Tracker d)
      → (once ≡ converted) ⊎ (once ≡ commission_earned)
      → info.user_id ≡ none
      → EachOnce once t
      → EachOnce once (track_event d now id type info t)
  track_event-EachOnce once now id type info t kind unnamed h k =
      rw (lookup-track_event now id type k info t) (elim (Bool-cases (k == id)) [
        | inl here ↦
            rw here (noted-IsOnce once now id type info (list_of (lookup id t)) kind unnamed (h id))
        | inr other ↦ rw other (h k)
      ])
