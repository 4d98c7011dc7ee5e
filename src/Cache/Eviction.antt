-- ===== src/Cache/Eviction.antt =====
-- The eviction of `set` takes the entry that was used the longest ago.
use siam_siam_ecosystem.Common.{
  ℕ, ◌≡◌, ◌≤◌, true, some, [], ◌∷◌, ltb, arith, All, Bool-cases, inl, inr, ◌⊎◌, ◌≢◌, none, ◌<◌,
  length, Option, Option-cases, false, ◌+◌, ◌==◌, suc, subst, zero, ap,
}
use siam_siam_ecosystem.Dict.{
  Has, lookup-Has, Dict, contains, IsMap, lookup, erase, lookup-insert_ne, lookup-erase,
}
use siam_siam_ecosystem.Cache.Defs.{
  Entry, oldest_from, evict_lru, set, make_room, Cache, is_full_for, entry,
}

module _ {V : Type 0} where
  -- No entry of the map was used before `t`.
  abbrev pub NoneBefore : ℕ → Dict (Entry V) → Type 0
  NoneBefore t = All (λ ke. t ≤ ke.1.last_accessed)

  oldest_from_lem :
      (j : ℕ) (b : Entry V) (d : Dict (Entry V)) (k : ℕ) (e : Entry V)
      → oldest_from (some (j, b)) d ≡ some (k, e)
      → (e.last_accessed ≤ b.last_accessed)
        × NoneBefore e.last_accessed d
        × (((k ≡ j) × (e ≡ b)) ⊎ Has k e d)
  unfolding oldest_from
  oldest_from_lem j b [] k e h = ground arith
  oldest_from_lem j b ((i, x) ∷ d) k e h = elim (Bool-cases (ltb x.last_accessed b.last_accessed)) [
    | inl older ↦ ground (arith, oldest_from_lem i x d k e (rw (older, oldest_from) at h))
    | inr younger ↦ ground (arith, oldest_from_lem j b d k e (rw (younger, oldest_from) at h))
  ]

  oldest_from-ne-none :
      (j : ℕ) (b : Entry V) (d : Dict (Entry V)) → oldest_from (some (j, b)) d ≢ none
  unfolding oldest_from
  oldest_from-ne-none j b [] h = cc
  oldest_from-ne-none j b ((i, x) ∷ d) h = elim (Bool-cases (ltb x.last_accessed b.last_accessed)) [
    | inl older ↦ oldest_from-ne-none i x d (rw (older, oldest_from) at h)
    | inr younger ↦ oldest_from-ne-none j b d (rw (younger, oldest_from) at h)
  ]

  -- what `_evictLRU` finds in a map that is not empty
  oldest :
      (d : Dict (Entry V))
      → IsMap d
      → 0 < length d
      → (k : ℕ) × (e : Entry V) × (oldest_from none d ≡ some (k, e))
        × (lookup k d ≡ some e)
        × NoneBefore e.last_accessed d
  unfolding oldest_from
  oldest [] m h = absurd (omega arith)
  oldest ((j, b) ∷ d) m h = elim (Option-cases (oldest_from (some (j, b)) d)) [
    | inl e ↦ absurd (oldest_from-ne-none j b d e)
    | inr ((k, x), e) ↦
        let (le, before, has) = oldest_from_lem j b d k x e in
        (k, x, e, lookup-Has k x ((j, b) ∷ d) m has, (le, before))
  ]

  pub evict_lru_lem :
      (c : Cache V)
      → IsMap c.entries
      → lookup 0 c.entries ≡ none
      → 0 < length c.entries
      → (k : ℕ) × (e : Entry V) × (lookup k c.entries ≡ some e)
        × NoneBefore e.last_accessed c.entries
        × (evict_lru c ≡ record c { entries = erase k c.entries; evictions = c.evictions + 1 })
  unfolding evict_lru
  evict_lru_lem c m z h =
      let (k, e, found, at, before) = oldest c.entries m h in
      (k, e, at, before, evicted k e found at)
    where
      evicted :
          (k : ℕ) (e : Entry V)
          → oldest_from none c.entries ≡ some (k, e)
          → lookup k c.entries ≡ some e
          → evict_lru c ≡ record c { entries = erase k c.entries; evictions = c.evictions + 1 }
      evicted zero e found at = absurd (ground arith)
      evicted (suc k) e found at = ground arith

  -- `set` on a full cache and a new key drops one entry, before which none was used.
  pub make_room_full :
      (key : ℕ) (c : Cache V)
      → IsMap c.entries
      → lookup 0 c.entries ≡ none
      → 0 < c.max_size
      → is_full_for key c ≡ true
      → (k : ℕ) × (e : Entry V) × (lookup k c.entries ≡ some e)
        × NoneBefore e.last_accessed c.entries
        × (make_room key c ≡ record c { entries = erase k c.entries; evictions = c.evictions + 1 })
  unfolding make_room
  make_room_full key c m z p full =
      let (k, e, at, before, evicted) = evict_lru_lem c m z (ground arith) in
      (k, e, at, before, ground arith)

  set_others :
      (now key : ℕ) (value : Option V) (ttl : ℕ) (c : Cache V) (j : ℕ)
      → j ≢ key
      → lookup j (set now key value ttl c).entries ≡ lookup j (make_room key c).entries
  unfolding set
  set_others now key value ttl c j ne =
      lookup-insert_ne j key (entry now value ttl) (make_room key c).entries ne

  -- What `set` leaves of the other entries, in a map with distinct keys and no empty key whose
  -- capacity is above 0: another entry stays as it was, unless the cache is at its capacity, the key
  -- is new, no entry was used before this one, and this one is gone.
  pub set-keeps_recent :
      (now key : ℕ) (value : Option V) (ttl : ℕ) (c : Cache V) (j : ℕ) {e : Entry V}
      → IsMap c.entries
      → lookup 0 c.entries ≡ none
      → 0 < c.max_size
      → j ≢ key
      → lookup j c.entries ≡ some e
      → let found = lookup j (set now key value ttl c).entries in
        (found ≡ some e)
        ⊎ ((found ≡ none)
            × (c.max_size ≤ length c.entries)
            × (contains key c.entries ≡ false)
            × NoneBefore e.last_accessed c.entries)
  unfolding make_room
  set-keeps_recent now key value ttl c j {e} m z p ne at =
      rw (set_others now key value ttl c j ne) (elim (Bool-cases (is_full_for key c)) [
        | inl full ↦
            let (k, x, there, before, evicted) = make_room_full key c m z p full in
            kept_or_dropped k x there before (ap (λ (d : Cache V). lookup j d.entries) evicted) full
        | inr room ↦ inl (ground arith)
      ])
    where
      kept_or_dropped :
          (k : ℕ) (x : Entry V)
          → lookup k c.entries ≡ some x
          → NoneBefore x.last_accessed c.entries
          → lookup j (make_room key c).entries ≡ lookup j (erase k c.entries)
          → is_full_for key c ≡ true
          → (lookup j (make_room key c).entries ≡ some e)
            ⊎ ((lookup j (make_room key c).entries ≡ none)
                × (c.max_size ≤ length c.entries)
                × (contains key c.entries ≡ false)
                × NoneBefore e.last_accessed c.entries)
      kept_or_dropped k x there before same full = elim (Bool-cases (j == k)) [
        | inl dropped ↦
            let is_victim : x ≡ e = ground arith in
            inr (
              ground (arith, lookup-erase j k c.entries),
              ground arith,
              ground arith,
              subst (λ (y : Entry V). NoneBefore y.last_accessed c.entries) is_victim before,
            )
        | inr kept ↦ inl (ground (arith, lookup-erase j k c.entries))
      ]
