-- ===== src/Texts.antt =====
-- Texts that the code takes apart, as lists of ASCII codes, and a JavaScript `Map` with such keys.
use siam_siam_ecosystem.Common.{
  ℕ, ◌+◌, ◌≡◌, refl, ◌≢◌, Bool, true, false, ◌&&◌, Option, none, some, List, [], ◌∷◌, arith, leb,
  ◌==◌, if◌then◌else◌,
}

abbrev pub Text : Type 0
Text = List ℕ

abbrev pub text_eq : Text → Text → Bool
text_eq [] [] = true
text_eq [] (d ∷ t) = false
text_eq (c ∷ s) [] = false
text_eq (c ∷ s) (d ∷ t) = (c == d) && text_eq s t

pub text_eq_refl : (s : Text) → text_eq s s ≡ true
text_eq_refl [] = refl
text_eq_refl (c ∷ s) = ground (arith, text_eq_refl s)

pub text_eq→eq : (s t : Text) → text_eq s t ≡ true → s ≡ t
text_eq→eq [] [] h = refl
text_eq→eq [] (d ∷ t) h = absurd (ground arith)
text_eq→eq (c ∷ s) [] h = absurd (ground arith)
text_eq→eq (c ∷ s) (d ∷ t) h = ground (arith, text_eq→eq s t)

abbrev pub is_empty : Text → Bool
is_empty [] = true
is_empty (c ∷ s) = false

-- `s || t`
abbrev pub text_or : Text → Text → Text
text_or [] t = t
text_or (c ∷ s) t = c ∷ s

-- `toLowerCase()`
abbrev pub lower : Text → Text
lower [] = []
lower (c ∷ s) = (if leb b'A' c && leb c b'Z' then c + 32 else c) ∷ lower s

abbrev pub TextMap {ℓ} : Type ℓ → Type ℓ
TextMap V = List (Text × V)

module _ {ℓ} {V : Type ℓ} where
  abbrev pub find : Text → TextMap V → Option V
  find k [] = none
  find k ((j, v) ∷ m) = if text_eq k j then some v else find k m

  abbrev pub put : Text → V → TextMap V → TextMap V
  put k v [] = (k, v) ∷ []
  put k v ((j, w) ∷ m) = if text_eq k j then (j, v) ∷ m else (j, w) ∷ put k v m

  pub find-put_self : (k : Text) (v : V) (m : TextMap V) → find k (put k v m) ≡ some v
  find-put_self k v [] = ground (arith, text_eq_refl k)
  find-put_self k v ((j, w) ∷ m) = ground (arith, find-put_self k v m)

  pub find-put_ne : (i k : Text) (v : V) (m : TextMap V) → i ≢ k → find i (put k v m) ≡ find i m
  find-put_ne i k v [] h = ground (arith, text_eq→eq i k)
  find-put_ne i k v ((j, w) ∷ m) h =
      ground (arith, text_eq→eq i j, text_eq→eq k j, find-put_ne i k v m h)
