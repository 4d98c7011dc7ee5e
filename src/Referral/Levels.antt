-- ===== src/Referral/Levels.antt =====
-- Which users `getDownline` counts: those that stand so many referrers below the user.
use siam_siam_ecosystem.Referral.Downline.{empty_levels}
use siam_siam_ecosystem.Referral.Defs.{Mlm}
use siam_siam_ecosystem.Referral.Downline.{find_children, count_at, each_child, bump, get_downline}
use siam_siam_ecosystem.Dict.{Dict, IsMap, lookup, insert, lookup-insert_self, lookup-insert}
use siam_siam_ecosystem.Common.{
  zero, suc, [], ◌∷◌, none, some, true, false, inl, inr, refl, arith, ℕ, Bool, same, if◌then◌else◌,
  Option, ◌+◌, ◌≡◌, ◌∙◌, ◌==◌, Option-cases, Bool-cases, ==→eq, ◌<◌, subst, ap, ◌≤◌,
}

-- the user `k` referrers above `u`, if there is one
abbrev pub above : Dict ℕ → ℕ → ℕ → Option ℕ
above net zero u = some u
above net (suc k) u = elim (above net k u) [ none ↦ none | some v ↦ lookup v net ]

abbrev pub one : Bool → ℕ
one true = 1
one false = 0

-- how many of the referred users stand `k` referrers below `p`
abbrev pub count_below : (net : Dict ℕ) → (k p : ℕ) → Dict ℕ → ℕ
count_below net k p [] = 0
count_below net k p ((u, r) ∷ rest) = one (same (above net k u) (some p)) + count_below net k p rest

-- the sum of `g` over the children of `p`
abbrev total : (ℕ → ℕ) → ℕ → Dict ℕ → ℕ
total g p [] = 0
total g p ((c, r) ∷ rest) = (if r == p then g c else 0) + total g p rest

total_zero : (p : ℕ) (d : Dict ℕ) → total (λ c. 0) p d ≡ 0
total_zero p [] = refl
total_zero p ((c, r) ∷ d) = ground (arith, total_zero p d)

total_add :
    (g h : ℕ → ℕ) (p : ℕ) (d : Dict ℕ) → total (λ c. g c + h c) p d ≡ total g p d + total h p d
total_add g h p [] = omega arith
total_add g h p ((c, r) ∷ d) = ground (arith, total_add g h p d)

total_absent : (y p : ℕ) (d : Dict ℕ) → lookup y d ≡ none → total (λ c. one (y == c)) p d ≡ 0
total_absent y p [] h = refl
total_absent y p ((c, r) ∷ d) h = ground (arith, total_absent y p d)

total_hit :
    (y p : ℕ) (d : Dict ℕ)
    → IsMap d
    → total (λ c. one (y == c)) p d ≡ one (same (lookup y d) (some p))
total_hit y p [] m = refl
total_hit y p ((c, r) ∷ d) m = elim (Bool-cases (y == c)) [
  | inl e ↦ ground (arith, total_absent y p d, ==→eq y c e)
  | inr e ↦ ground (arith, total_hit y p d (m.1))
]

total_step :
    (net : Dict ℕ) (k u p : ℕ)
    → IsMap net
    → total (λ c. one (same (above net k u) (some c))) p net
      ≡ one (same (above net (suc k) u) (some p))
total_step net k u p m = elim (Option-cases (above net k u)) [
  | inl e ↦ rw (e, above) (total_zero p net)
  | inr (y, e) ↦ rw (e, above) (total_hit y p net m)
]

-- the sums over children and over users are exchanged
total_count :
    (net : Dict ℕ) (k p : ℕ) (l : Dict ℕ)
    → IsMap net
    → total (λ c. count_below net k c l) p net ≡ count_below net (suc k) p l
total_count net k p [] m = total_zero p net
total_count net k p ((u, r) ∷ l) m =
    total_add (λ c. one (same (above net k u) (some c))) (λ c. count_below net k c l) p net
    ∙ omega (arith, total_step net k u p m, total_count net k p l m)

-- these entries are found in the network
abbrev Known : Dict ℕ → Dict ℕ → Type 0
Known net [] = Unit
Known net ((u, r) ∷ rest) = (lookup u net ≡ some r) × Known net rest

Known-cons :
    (j w : ℕ) (net rest : Dict ℕ)
    → lookup j rest ≡ none
    → Known net rest
    → Known ((j, w) ∷ net) rest
Known-cons j w net [] h k = tt
Known-cons j w net ((u, r) ∷ rest) h k =
    (ground (arith, k.0), Known-cons j w net rest (ground arith) (k.1))

Known-self : (net : Dict ℕ) → IsMap net → Known net net
Known-self [] m = tt
Known-self ((u, r) ∷ net) m = (ground arith, Known-cons u r net net (m.0) (Known-self net (m.1)))

total_ones :
    (net : Dict ℕ) (p : ℕ) (rest : Dict ℕ)
    → Known net rest
    → total (λ c. 1) p rest ≡ count_below net 1 p rest
total_ones net p [] k = refl
total_ones net p ((u, r) ∷ rest) k = rw (k.0) (ground (arith, total_ones net p rest (k.1)))

count_at-insert :
    (e k v : ℕ) (d : Dict ℕ) → count_at e (insert k v d) ≡ (if e == k then v else count_at e d)
count_at-insert e k v d = elim (Bool-cases (e == k)) [
  | inl h ↦ ground (arith, ==→eq e k h, lookup-insert_self k v d)
  | inr h ↦ ground (arith, lookup-insert e k v d)
]

bump_here :
    (depth : ℕ) (a : Dict ℕ)
    → (if depth + 0 == depth then count_at depth a + 1 else count_at (depth + 0) a)
      ≡ count_at (depth + 0) a + 1
bump_here depth a = let e : depth + 0 ≡ depth = omega arith in rw e (ground arith)

bump_above :
    (depth i : ℕ) (a : Dict ℕ)
    → count_at (depth + 1 + i) (bump depth a) ≡ count_at (depth + 1 + i) a
bump_above depth i a = count_at-insert (depth + 1 + i) depth (count_at depth a + 1) a ∙ ground arith

-- what the loop over the children adds to the count of a level, if each child adds `g`
each_child_lem :
    (find : ℕ → Dict ℕ → Dict ℕ) (g : ℕ → ℕ) (e p depth : ℕ) (rest d : Dict ℕ)
    → ((c : ℕ) (a : Dict ℕ) → count_at e (find c (bump depth a)) ≡ count_at e a + g c)
    → count_at e (each_child find p depth rest d) ≡ count_at e d + total g p rest
unfolding each_child
each_child_lem find g e p depth [] d h = omega arith
each_child_lem find g e p depth ((c, r) ∷ rest) d h = elim (Bool-cases (r == p)) [
  | inl is_child ↦
      rw is_child
        (omega (arith, h c d, each_child_lem find g e p depth rest (find c (bump depth d)) h))
  | inr no_child ↦ rw no_child (omega (arith, each_child_lem find g e p depth rest d h))
]

-- levels above are left alone
find_above :
    (net : Dict ℕ) (left p depth e : ℕ) (d : Dict ℕ)
    → e < depth
    → count_at e (find_children net left p depth d) ≡ count_at e d
unfolding find_children
find_above net zero p depth e d h = refl
find_above net (suc left) p depth e d h =
    each_child_lem (λ c. find_children net left c (depth + 1)) (λ c. 0) e p depth net d
      (λ c a.
        find_above net left c (depth + 1) e (bump depth a) (omega arith)
        ∙ count_at-insert e depth (count_at depth a + 1) a
        ∙ ground arith)
    ∙ omega (arith, total_zero p net)

find_children_lem :
    (net : Dict ℕ) (left p depth i : ℕ) (d : Dict ℕ)
    → IsMap net
    → i < left
    → count_at (depth + i) (find_children net left p depth d)
      ≡ count_at (depth + i) d + count_below net (suc i) p net
unfolding find_children
find_children_lem net zero p depth i d m h = absurd (omega arith)
find_children_lem net (suc left) p depth zero d m h =
    each_child_lem (λ c. find_children net left c (depth + 1)) (λ c. 1) (depth + 0) p depth net d
      (λ c a.
        find_above net left c (depth + 1) (depth + 0) (bump depth a) (omega arith)
        ∙ count_at-insert (depth + 0) depth (count_at depth a + 1) a
        ∙ bump_here depth a)
    ∙ omega (arith, total_ones net p net (Known-self net m))
find_children_lem net (suc left) p depth (suc i) d m h =
    each_child_lem (λ c. find_children net left c (depth + 1)) (λ c. count_below net (suc i) c net)
      (depth + suc i) p depth net d
      (λ c a.
        subst
          (λ n.
            count_at n (find_children net left c (depth + 1) (bump depth a))
            ≡ count_at n a + count_below net (suc i) c net)
          (omega arith)
          (find_children_lem net left c (depth + 1) i (bump depth a) m (omega arith)
            ∙ ap (λ (n : ℕ). n + count_below net (suc i) c net) (bump_above depth i a)))
    ∙ omega (arith, total_count net (suc i) p net m)

empty_levels_lem : (k : ℕ) → count_at k empty_levels ≡ 0
empty_levels_lem k = ground arith

-- In a network in which each user has one referrer, `getDownline` counts at each level from 1 up to
-- `maxDepth` the referred users that stand this many referrers below the user, also where the network
-- has circles.
pub get_downline_lem :
    (user k : ℕ) (m : Mlm)
    → IsMap m.network
    → 0 < k
    → k ≤ m.max_depth
    → count_at k (get_downline user m) ≡ count_below m.network k user m.network
unfolding get_downline
get_downline_lem user zero m v pos le = absurd (omega arith)
get_downline_lem user (suc i) m v pos le =
    subst (λ n. count_at n (get_downline user m) ≡ count_below m.network (suc i) user m.network)
      (omega arith)
      (find_children_lem m.network m.max_depth user 1 i empty_levels v (omega arith)
        ∙ omega (arith, empty_levels_lem (1 + i)))
