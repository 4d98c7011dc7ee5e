-- ===== src/Dict/Laws.antt =====
-- What `get`, `set`, `delete` and `size` of a `Map` have to do with each other.
use siam_siam_ecosystem.Common.{
  Bool-cases, subst, inl, inr, ℕ, ◌+◌, ◌≤◌, ◌<◌, ◌≡◌, refl, ◌≢◌, true, false, none, some, [], ◌∷◌,
  arith, ◌==◌, if◌then◌else◌, length, ◌&&◌, not,
}
use siam_siam_ecosystem.Dict.Defs.{Dict, lookup, contains, insert, erase, IsMap, Has, Each}

module _ {ℓ} {V : Type ℓ} where
  pub lookup-insert :
      (j k : ℕ) (v : V) (d : Dict V)
      → lookup j (insert k v d) ≡ (if j == k then some v else lookup j d)
  lookup-insert j k v [] = refl
  lookup-insert j k v ((i, w) ∷ d) = ground (arith, lookup-insert j k v d)

  pub lookup-insert_self : (k : ℕ) (v : V) (d : Dict V) → lookup k (insert k v d) ≡ some v
  lookup-insert_self k v d = ground (arith, lookup-insert k k v d)

  pub lookup-insert_ne :
      (j k : ℕ) (v : V) (d : Dict V) → j ≢ k → lookup j (insert k v d) ≡ lookup j d
  lookup-insert_ne j k v d h = ground (arith, lookup-insert j k v d)

  pub lookup-erase :
      (j k : ℕ) (d : Dict V) → lookup j (erase k d) ≡ (if j == k then none else lookup j d)
  lookup-erase j k [] = ground arith
  lookup-erase j k ((i, w) ∷ d) = ground (arith, lookup-erase j k d)

  pub lookup-erase_self : (k : ℕ) (d : Dict V) → lookup k (erase k d) ≡ none
  lookup-erase_self k d = ground (arith, lookup-erase k k d)

  pub lookup-erase_ne : (j k : ℕ) (d : Dict V) → j ≢ k → lookup j (erase k d) ≡ lookup j d
  lookup-erase_ne j k d h = ground (arith, lookup-erase j k d)

  pub insert-IsMap : (k : ℕ) (v : V) (d : Dict V) → IsMap d → IsMap (insert k v d)
  insert-IsMap k v [] h = (refl, tt)
  insert-IsMap k v ((i, w) ∷ d) h = ground (arith, insert-IsMap k v d h.1, lookup-insert i k v d)

  pub erase-IsMap : (k : ℕ) (d : Dict V) → IsMap d → IsMap (erase k d)
  erase-IsMap k [] h = tt
  erase-IsMap k ((i, w) ∷ d) h = ground (arith, erase-IsMap k d h.1, lookup-erase i k d)

  pub length-insert_old :
      (k : ℕ) (v : V) (d : Dict V) → contains k d ≡ true → length (insert k v d) ≡ length d
  length-insert_old k v [] h = ground arith
  length-insert_old k v ((i, w) ∷ d) h = ground (arith, length-insert_old k v d)

  pub length-insert_new :
      (k : ℕ) (v : V) (d : Dict V) → contains k d ≡ false → length (insert k v d) ≡ length d + 1
  length-insert_new k v [] h = omega arith
  length-insert_new k v ((i, w) ∷ d) h = ground (arith, length-insert_new k v d)

  pub length-insert-le : (k : ℕ) (v : V) (d : Dict V) → length (insert k v d) ≤ length d + 1
  length-insert-le k v [] = omega arith
  length-insert-le k v ((i, w) ∷ d) = ground (arith, length-insert-le k v d)

  pub length-erase-le : (k : ℕ) (d : Dict V) → length (erase k d) ≤ length d
  length-erase-le k [] = omega arith
  length-erase-le k ((i, w) ∷ d) = ground (arith, length-erase-le k d)

  pub length-erase-lt : (k : ℕ) (d : Dict V) → contains k d ≡ true → length (erase k d) < length d
  length-erase-lt k [] h = ground arith
  length-erase-lt k ((i, w) ∷ d) h = ground (arith, length-erase-le k d, length-erase-lt k d)

  pub erase_absent : (k : ℕ) (d : Dict V) → lookup k d ≡ none → erase k d ≡ d
  erase_absent k [] h = refl
  erase_absent k ((i, w) ∷ d) h = ground (arith, erase_absent k d)

  -- `delete` of a key that is there makes a map smaller by one.
  pub length-erase :
      (k : ℕ) (d : Dict V) → IsMap d → contains k d ≡ true → length (erase k d) + 1 ≡ length d
  length-erase k [] m h = ground arith
  length-erase k ((i, w) ∷ d) m h = ground (arith, length-erase k d m.1, erase_absent i d m.0)

module _ {V : Type 0} where
  Has-contains : (k : ℕ) (v : V) (d : Dict V) → Has k v d → contains k d ≡ true
  Has-contains k v [] h = absurd h
  Has-contains k v ((i, w) ∷ d) (inl (e, _)) = ground arith
  Has-contains k v ((i, w) ∷ d) (inr h) = ground (arith, Has-contains k v d h)

  pub lookup-Has : (k : ℕ) (v : V) (d : Dict V) → IsMap d → Has k v d → lookup k d ≡ some v
  lookup-Has k v [] m h = absurd h
  lookup-Has k v ((i, w) ∷ d) m (inl (e, f)) = ground arith
  lookup-Has k v ((i, w) ∷ d) m (inr h) =
      ground (arith, lookup-Has k v d m.1 h, Has-contains k v d h)

  pub Each-insert :
      (P : V → Type 0) (k : ℕ) (v : V) (d : Dict V) → P v → Each P d → Each P (insert k v d)
  Each-insert P k v [] p h = (p, tt)
  Each-insert P k v ((i, w) ∷ d) p h = elim (Bool-cases (k == i)) [
    | inl same_key ↦ rw (same_key, Each, insert) (p, h.1)
    | inr other ↦ rw (other, Each, insert) (h.0, Each-insert P k v d p h.1)
  ]

  pub Each-erase : (P : V → Type 0) (k : ℕ) (d : Dict V) → Each P d → Each P (erase k d)
  Each-erase P k [] h = tt
  Each-erase P k ((i, w) ∷ d) h = elim (Bool-cases (k == i)) [
    | inl same_key ↦ rw (same_key, Each, erase) (Each-erase P k d h.1)
    | inr other ↦ rw (other, Each, erase) (h.0, Each-erase P k d h.1)
  ]

  pub Each-lookup :
      (P : V → Type 0) (k : ℕ) (v : V) (d : Dict V) → Each P d → lookup k d ≡ some v → P v
  Each-lookup P k v [] h e = absurd (ground arith)
  Each-lookup P k v ((i, w) ∷ d) h e = elim (Bool-cases (k == i)) [
    | inl same_key ↦ let same_value : w ≡ v = ground arith in subst P same_value h.0
    | inr other ↦ Each-lookup P k v d h.1 (ground arith)
  ]

-- A map whose keys are all keys of another is no larger.
module _ {V W : Type 0} where
  pub length-le :
      (a : Dict V) (b : Dict W)
      → IsMap a
      → ((k : ℕ) → (contains k a && not (contains k b)) ≡ false)
      → length a ≤ length b
  length-le [] b m sub = omega arith
  length-le ((k, v) ∷ a) b m sub =
      let there : contains k b ≡ true = ground (arith, sub k) in
      omega (
        arith,
        length-le a (erase k b) m.1 (λ j. ground (arith, sub j, lookup-erase j k b, m.0)),
        length-erase-lt k b there,
      )
