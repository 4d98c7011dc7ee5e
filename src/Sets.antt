-- ===== src/Sets.antt =====
-- A JavaScript `Set` of texts or numbers: distinct elements in the order of insertion.
use siam_siam_ecosystem.Common.{
  ℕ, ◌+◌, ◌≤◌, ◌≡◌, refl, Bool, true, false, List, [], ◌∷◌, arith, ◌==◌, if◌then◌else◌, length,
}

-- `s.has(a)`
abbrev pub has : ℕ → List ℕ → Bool
has a [] = false
has a (x ∷ xs) = if a == x then true else has a xs

-- `s.add(a)`
abbrev pub add : ℕ → List ℕ → List ℕ
add a [] = a ∷ []
add a (x ∷ xs) = if a == x then x ∷ xs else x ∷ add a xs

-- `s.delete(a)`
abbrev pub remove : ℕ → List ℕ → List ℕ
remove a [] = []
remove a (x ∷ xs) = if a == x then remove a xs else x ∷ remove a xs

-- `new Set([...xs, ...ys])`
abbrev pub union : List ℕ → List ℕ → List ℕ
union xs [] = xs
union xs (y ∷ ys) = union (add y xs) ys

abbrev pub IsDistinct : List ℕ → Type 0
IsDistinct [] = Unit
IsDistinct (x ∷ xs) = (has x xs ≡ false) × IsDistinct xs

pub has-add : (a b : ℕ) (xs : List ℕ) → has a (add b xs) ≡ (if a == b then true else has a xs)
has-add a b [] = refl
has-add a b (x ∷ xs) = ground (arith, has-add a b xs)

pub has-remove :
    (a b : ℕ) (xs : List ℕ) → has a (remove b xs) ≡ (if a == b then false else has a xs)
has-remove a b [] = ground arith
has-remove a b (x ∷ xs) = ground (arith, has-remove a b xs)

pub length-add :
    (a : ℕ) (xs : List ℕ) → length (add a xs) ≡ (if has a xs then length xs else length xs + 1)
length-add a [] = omega arith
length-add a (x ∷ xs) = ground (arith, length-add a xs)

pub length-remove-le : (a : ℕ) (xs : List ℕ) → length (remove a xs) ≤ length xs
length-remove-le a [] = omega arith
length-remove-le a (x ∷ xs) = ground (arith, length-remove-le a xs)

pub has-union :
    (a : ℕ) (xs ys : List ℕ) → has a (union xs ys) ≡ (if has a xs then true else has a ys)
has-union a xs [] = ground arith
has-union a xs (y ∷ ys) = ground (arith, has-union a (add y xs) ys, has-add a y xs)

pub add-IsDistinct : (a : ℕ) (xs : List ℕ) → IsDistinct xs → IsDistinct (add a xs)
add-IsDistinct a [] d = (refl, tt)
add-IsDistinct a (x ∷ xs) d = ground (arith, add-IsDistinct a xs d.1, has-add x a xs)

pub remove-IsDistinct : (a : ℕ) (xs : List ℕ) → IsDistinct xs → IsDistinct (remove a xs)
remove-IsDistinct a [] d = tt
remove-IsDistinct a (x ∷ xs) d = ground (arith, remove-IsDistinct a xs d.1, has-remove x a xs)
