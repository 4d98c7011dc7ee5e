-- ===== src/Cache/Tests.antt =====
-- Runs of the cache, and its theorems at a concrete cache.
use siam_siam_ecosystem.Cache.Eviction.{NoneBefore, set-keeps_recent}
use siam_siam_ecosystem.Cache.Reads.{get-set}
use siam_siam_ecosystem.Dict.{lookup, contains}
use siam_siam_ecosystem.Cache.Bounds.{IsValid, Reach-IsValid, next, start, by_set, by_timer}
use siam_siam_ecosystem.Cache.Defs.{
  Cache, Entry, get, set, expired, make_room, cleanup, evict_lru, oldest_from,
}
use siam_siam_ecosystem.Common.{ℕ, none, some, ◌∷◌, [], arith, ◌≡◌, ◌⊎◌, length, ◌≤◌, false, refl}

-- Two entries of a cache that holds two: key 1, used at 10, and key 2, used at 12.
abbrev entry_at : ℕ → ℕ → Entry ℕ
entry_at v t = record { value = some v; created_at = 5; expires_at = some 100; last_accessed = t }

abbrev full : Cache ℕ
full = record {
  max_size = 2;
  default_ttl = 60;
  entries = (1, entry_at 7 10) ∷ (2, entry_at 8 12) ∷ [];
  hits = 0;
  misses = 0;
  sets = 2;
  evictions = 0;
}

full-IsValid : IsValid full
full-IsValid = ground arith

-- Key 1 makes room for key 3; after a read of key 1 it is key 2 that does.
evicts_oldest :
    ((get 20 1 (set 15 3 (some 9) 0 full)).0 ≡ none)
    × ((get 20 2 (set 15 3 (some 9) 0 (get 14 1 full).1)).0 ≡ none)
    × ((get 20 1 (set 15 3 (some 9) 0 (get 14 1 full).1)).0 ≡ some 7)
unfolding get set make_room evict_lru oldest_from expired
evicts_oldest = (refl, refl, refl)

-- Under the empty key the code finds an oldest entry and does not evict it: the cache outgrows its
-- capacity.
outgrows :
    let c : Cache ℕ = record full { entries = (0, entry_at 7 10) ∷ (2, entry_at 8 12) ∷ [] } in
    length (set 15 3 (some 9) 0 c).entries ≡ 3
unfolding set make_room evict_lru oldest_from
outgrows = refl

get-set_example : (get 40 3 (set 15 3 (some 9) 20 full)).0 ≡ none
get-set_example = get-set 15 40 3 (some 9) 20 full

set-keeps_recent_example :
    let found = lookup 1 (set 15 3 (some 9) 0 full).entries in
    (found ≡ some (entry_at 7 10))
    ⊎ ((found ≡ none)
        × (2 ≤ length full.entries)
        × (contains 3 full.entries ≡ false)
        × NoneBefore 10 full.entries)
set-keeps_recent_example =
    set-keeps_recent 15 3 (some 9) 0 full 1 {e = entry_at 7 10} full-IsValid.distinct refl
      (omega arith) (omega arith) refl

Reach-IsValid_example : IsValid (cleanup 200 (set 15 3 (some 9) 0 full))
Reach-IsValid_example =
    Reach-IsValid full-IsValid
      (next (next start (by_set 15 3 (some 9) 0 full (omega arith))) (by_timer 200 _))
