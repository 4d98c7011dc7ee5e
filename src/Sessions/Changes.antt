-- ===== src/Sessions/Changes.antt =====
-- Changes of one session that keep its identifier, its phone number and its stack in step.
use siam_siam_ecosystem.Dict.{
  Dict, erase, IsMap, insert, lookup, erase-IsMap, Each, Each-erase, insert-IsMap,
  lookup-insert_self, Each-insert, Each-lookup,
}
use Prim.Native.Nat.{ℕ, suc}
use siam_siam_ecosystem.Common.{
  ℕ, Option-cases, List, ◌≡◌, ◌≤◌, inl, refl, some, ◌∷◌, inr, ◌<◌, ◌+◌, arith, [], Bool-cases,
  if◌then◌else◌, ◌∙◌, ltb, ◌==◌, ◌&&◌, Option, ◌++◌, none, zero,
}
use siam_siam_ecosystem.Sessions.Defs.{
  destroy, Manager, Session, sessions_by_phone, get, with_session, touched, top, home, updated,
  back, Updates, go_to, put_metadata, put_data, put_input,
}
use siam_siam_ecosystem.Sessions.Counting.{on_phone, Stored, InSync}

pub record IsSound (m : Manager) : Type 0 where
  pub distinct : IsMap m.sessions
  pub stored : Stored m.sessions
  pub synced : Each InSync m.sessions
  pub room : 0 < m.max_sessions_per_phone
  pub capped : (phone : ℕ) → on_phone phone m.sessions ≤ m.max_sessions_per_phone

-- what the changes of a session leave alone
pub record Keeps (s t : Session) : Type 0 where
  pub id : t.id ≡ s.id
  pub phone : t.phone_number ≡ s.phone_number
  pub active : t.is_active ≡ s.is_active
  pub sync : InSync s → InSync t

pub on_phone-insert :
    (p k : ℕ) (s : Session) (d : Dict Session)
    → on_phone p (insert k s d)
      ≤ on_phone p d + (if (s.phone_number == p) && s.is_active then 1 else 0)
unfolding sessions_by_phone
on_phone-insert p k s [] = ground arith
on_phone-insert p k s ((j, t) ∷ d) = ground (arith, on_phone-insert p k s d)

on_phone-erase-le : (p k : ℕ) (d : Dict Session) → on_phone p (erase k d) ≤ on_phone p d
unfolding sessions_by_phone
on_phone-erase-le p k [] = omega arith
on_phone-erase-le p k ((j, t) ∷ d) = ground (arith, on_phone-erase-le p k d)

on_phone-insert_kept :
    (p k : ℕ) (s t : Session) (d : Dict Session)
    → lookup k d ≡ some s
    → Keeps s t
    → on_phone p (insert k t d) ≡ on_phone p d
unfolding sessions_by_phone
on_phone-insert_kept p k s t [] e kept = absurd (ground arith)
on_phone-insert_kept p k s t ((j, u) ∷ d) e kept =
    ground (arith, on_phone-insert_kept p k s t d, kept.phone, kept.active)

-- Without the first session of a phone, the phone has fewer.
pub on_phone-erase_first :
    (p : ℕ) (o : Session) (rest : List Session) (d : Dict Session)
    → sessions_by_phone p d ≡ o ∷ rest
    → Stored d
    → on_phone p (erase o.id d) < on_phone p d
unfolding sessions_by_phone
on_phone-erase_first p o rest [] e st = absurd (ground arith)
on_phone-erase_first p o rest ((j, u) ∷ d) e st =
    ground (arith, on_phone-erase_first p o rest d, on_phone-erase-le p o.id d)

pub Stored-insert :
    (k : ℕ) (s : Session) (d : Dict Session) → s.id ≡ k → Stored d → Stored (insert k s d)
Stored-insert k s [] e h = (e, tt)
Stored-insert k s ((j, u) ∷ d) e h = ground (arith, Stored-insert k s d)

Stored-erase : (k : ℕ) (d : Dict Session) → Stored d → Stored (erase k d)
Stored-erase k [] h = tt
Stored-erase k ((j, u) ∷ d) h = ground (arith, Stored-erase k d)

Stored-lookup : (k : ℕ) (s : Session) (d : Dict Session) → lookup k d ≡ some s → Stored d → s.id ≡ k
Stored-lookup k s [] e h = absurd (ground arith)
Stored-lookup k s ((j, u) ∷ d) e h = ground (arith, Stored-lookup k s d)

pub insert_kept-IsSound :
    (k : ℕ) (s t : Session) (m : Manager)
    → lookup k m.sessions ≡ some s
    → Keeps s t
    → IsSound m
    → IsSound (record m { sessions = insert k t m.sessions })
insert_kept-IsSound k s t m e kept v = record {
  distinct = insert-IsMap k t m.sessions v.distinct;
  stored =
      Stored-insert k t m.sessions (kept.id ∙ Stored-lookup k s m.sessions e v.stored) v.stored;
  synced =
      Each-insert InSync k t m.sessions (kept.sync (Each-lookup InSync k s m.sessions v.synced e))
        v.synced;
  room = v.room;
  capped = λ p. ground (arith, on_phone-insert_kept p k s t m.sessions e kept, v.capped p);
}

pub erase-IsSound :
    (k : ℕ) (m : Manager) → IsSound m → IsSound (record m { sessions = erase k m.sessions })
erase-IsSound k m v = record {
  distinct = erase-IsMap k m.sessions v.distinct;
  stored = Stored-erase k m.sessions v.stored;
  synced = Each-erase InSync k m.sessions v.synced;
  room = v.room;
  capped = λ p. omega (arith, on_phone-erase-le p k m.sessions, v.capped p);
}

pub destroy-IsSound : (k : ℕ) (m : Manager) → IsSound m → IsSound (destroy k m).1
unfolding destroy
destroy-IsSound k m v = elim (Option-cases (lookup k m.sessions)) [
  | inl e ↦ rw (e, destroy) v
  | inr (s, e) ↦ rw (e, destroy) (erase-IsSound k m v)
]

touched-Keeps : (now timeout : ℕ) (s : Session) → Keeps s (touched now timeout s)
unfolding touched
touched-Keeps now timeout s = record { id = refl; phone = refl; active = refl; sync = λ h. h }

pub get-IsSound : (now k : ℕ) (m : Manager) → IsSound m → IsSound (get now k m).1
unfolding get
get-IsSound now k m v = elim (Option-cases (lookup k m.sessions)) [
  | inl e ↦ rw (e, get) v
  | inr (s, e) ↦ elim (Bool-cases s.is_active) [
    | inr gone ↦ rw (e, gone, get) v
    | inl alive ↦ elim (Bool-cases (ltb s.expires_at now)) [
      | inl late ↦ rw (e, alive, late, get) (destroy-IsSound k m v)
      | inr early ↦
          simp (e, alive, early, get)
            (insert_kept-IsSound k s (touched now m.session_timeout s) m e
              (touched-Keeps now m.session_timeout s) v)
    ]
  ]
]

-- A session that `get` returns is the one that is stored.
pub get_stored :
    (now k : ℕ) (m : Manager) (s : Session)
    → (get now k m).0 ≡ some s
    → lookup k (get now k m).1.sessions ≡ some s
unfolding get
get_stored now k m s h = elim (Option-cases (lookup k m.sessions)) [
  | inl e ↦ ground arith
  | inr (t, e) ↦ ground (arith, lookup-insert_self k (touched now m.session_timeout t) m.sessions)
]

pub with_session-IsSound {ℓ} :
    {R : Type ℓ} (now k : ℕ) (failure : R) (change : Session → R × Session) (m : Manager)
    → ((s : Session) → Keeps s (change s).1)
    → IsSound m
    → IsSound (with_session now k failure change m).1
with_session-IsSound now k failure change m keeps v = elim (Option-cases (get now k m).0) [
  | inl e ↦ rw (e, with_session) (get-IsSound now k m v)
  | inr (s, e) ↦
      rw (e, with_session)
        (insert_kept-IsSound k s (change s).1 (get now k m).1 (get_stored now k m s e) (keeps s)
          (get-IsSound now k m v))
]

pub Keeps-refl : (s : Session) → Keeps s s
Keeps-refl s = record { id = refl; phone = refl; active = refl; sync = λ h. h }

-- pushing a menu brings it to the top
pub top-push : (menu : ℕ) (stack : List ℕ) → top (stack ++ (menu ∷ [])) ≡ menu
top-push menu [] = refl
top-push menu (x ∷ []) = refl
top-push menu (x ∷ (y ∷ xs)) = top-push menu (y ∷ xs)

go_to-Keeps : (to : Option ℕ) (s : Session) → Keeps s (go_to to s)
go_to-Keeps none s = Keeps-refl s
go_to-Keeps (some zero) s = Keeps-refl s
go_to-Keeps (some (suc menu)) s = elim (Bool-cases (suc menu == s.current_menu)) [
  | inl same ↦ simp same (Keeps-refl s)
  | inr other ↦ simp other (record {
    id = refl;
    phone = refl;
    active = refl;
    sync = λ _. ground (arith, top-push (suc menu) s.menu_stack);
  })
]

Keeps-trans : {s t u : Session} → Keeps s t → Keeps t u → Keeps s u
Keeps-trans f g = record {
  id = g.id ∙ f.id;
  phone = g.phone ∙ f.phone;
  active = g.active ∙ f.active;
  sync = λ h. g.sync (f.sync h);
}

put_data-Keeps : (d : Option (Dict ℕ)) (s : Session) → Keeps s (put_data d s)
put_data-Keeps none s = Keeps-refl s
put_data-Keeps (some d) s = record { id = refl; phone = refl; active = refl; sync = λ h. h }

put_input-Keeps : (now : ℕ) (i : Option ℕ) (s : Session) → Keeps s (put_input now i s)
put_input-Keeps now none s = Keeps-refl s
put_input-Keeps now (some i) s = record { id = refl; phone = refl; active = refl; sync = λ h. h }

put_metadata-Keeps : (d : Option (Dict ℕ)) (s : Session) → Keeps s (put_metadata d s)
put_metadata-Keeps none s = Keeps-refl s
put_metadata-Keeps (some d) s = record { id = refl; phone = refl; active = refl; sync = λ h. h }

pub updated-Keeps :
    (now timeout : ℕ) (u : Updates) (s : Session) → Keeps s (updated now timeout u s)
unfolding updated
updated-Keeps now timeout u s =
    let s₁ = go_to u.current_menu s in
    let s₂ = put_data u.data_of s₁ in
    let s₃ = put_input now u.input s₂ in
    let kept : Keeps s (put_metadata u.metadata s₃) = Keeps-trans (go_to-Keeps u.current_menu s) (
      Keeps-trans (put_data-Keeps u.data_of s₁)
        (Keeps-trans (put_input-Keeps now u.input s₂) (put_metadata-Keeps u.metadata s₃))) in
    record { id = kept.id; phone = kept.phone; active = kept.active; sync = kept.sync }

pub back-Keeps : (s : Session) → Keeps s (back s).1
unfolding back
back-Keeps s = record { id = refl; phone = refl; active = refl; sync = λ _. refl }

pub home-Keeps : (s : Session) → Keeps s (home s).1
unfolding home
home-Keeps s = record { id = refl; phone = refl; active = refl; sync = λ _. refl }

pub data_of-Keeps : (d : Dict ℕ) (s : Session) → Keeps s (record s { data_of = d })
data_of-Keeps d s = record { id = refl; phone = refl; active = refl; sync = λ h. h }
