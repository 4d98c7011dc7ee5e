-- ===== src/Dict/Defs.antt =====
-- A JavaScript `Map` whose keys are texts or numbers: the entries in the order of insertion.
use siam_siam_ecosystem.Common.{
  ℕ, ◌≡◌, Bool, Option, none, some, List, [], ◌∷◌, ◌==◌, if◌then◌else◌, is_some, ◌⊎◌,
}

abbrev pub Dict {ℓ} : Type ℓ → Type ℓ
Dict V = List (ℕ × V)

module _ {ℓ} {V : Type ℓ} where
  -- `d.get(k)`
  abbrev pub lookup : ℕ → Dict V → Option V
  lookup k [] = none
  lookup k ((j, v) ∷ d) = if k == j then some v else lookup k d

  -- `d.has(k)`
  abbrev pub contains : ℕ → Dict V → Bool
  contains k d = is_some (lookup k d)

  -- `d.set(k, v)`: a known key keeps its place
  abbrev pub insert : ℕ → V → Dict V → Dict V
  insert k v [] = (k, v) ∷ []
  insert k v ((j, w) ∷ d) = if k == j then (j, v) ∷ d else (j, w) ∷ insert k v d

  -- `d.delete(k)`
  abbrev pub erase : ℕ → Dict V → Dict V
  erase k [] = []
  erase k ((j, w) ∷ d) = if k == j then erase k d else (j, w) ∷ erase k d

  -- the keys are distinct, as those of every `Map`
  abbrev pub IsMap : Dict V → Type ℓ
  IsMap [] = Unit
  IsMap ((j, w) ∷ d) = (lookup j d ≡ none) × IsMap d

module _ {V : Type 0} where
  -- the map has this very entry
  abbrev pub Has : ℕ → V → Dict V → Type 0
  Has k v [] = ⊥
  Has k v ((j, w) ∷ d) = ((k ≡ j) × (v ≡ w)) ⊎ Has k v d

  -- every value of the map is as `P` says
  abbrev pub Each : (V → Type 0) → Dict V → Type 0
  Each P [] = Unit
  Each P ((j, w) ∷ d) = P w × Each P d
