-- ===== src/Cache/Reads.antt =====
-- What `get` returns after a `set`, what it counts, and what the cleanup removes.
use siam_siam_ecosystem.Common.{
  ℕ, ◌+◌, ◌≡◌, refl, Option, none, some, [], ◌∷◌, ltb, if◌then◌else◌, truthy, length, arith,
  Bool-cases, Option-cases, inl, inr, ◌==◌, ◌&&◌, is_some, not,
}
use siam_siam_ecosystem.Dict.{Dict, lookup, IsMap, lookup-insert, lookup-erase, lookup-insert_self}
use siam_siam_ecosystem.Cache.Defs.{
  Entry, Cache, entry, expired, get, make_room, set, live, cleanup,
}
use siam_siam_ecosystem.Cache.Bounds.{length-live, lookup-live-none}

module _ {V : Type 0} where
  -- `get` on a key that has an entry
  get_found :
      (now key : ℕ) (c : Cache V) {e : Entry V}
      → lookup key c.entries ≡ some e
      → (get now key c).0 ≡ (if expired now e then none else e.value)
  unfolding get
  get_found now key c {e} there = ground arith

  -- A value is read back under its key until its time to live has passed, and never after that; with
  -- a time to live of 0 it never expires.
  pub get-set :
      (now later key : ℕ) (value : Option V) (ttl : ℕ) (c : Cache V)
      → (get later key (set now key value ttl c)).0
        ≡ (if truthy ttl && ltb (now + ttl) later then none else value)
  unfolding set expired
  get-set now later key value ttl c =
      let found =
        get_found later key (set now key value ttl c)
          (lookup-insert_self key (entry now value ttl) (make_room key c).entries) in
      rw found (ground arith)

  abbrev fresh : ℕ → Option (Entry V) → Option (Entry V)
  fresh now none = none
  fresh now (some e) = if expired now e then none else some e

  abbrev touched : ℕ → Option (Entry V) → Option (Entry V)
  touched now none = none
  touched now (some e) = some (record e { last_accessed = now })

  -- `get` counts one hit or one miss. Of its own key it leaves the entry marked as used now, or no
  -- entry if that has expired, which is then counted as an eviction; no other key is touched.
  pub get_effect :
      (now key j : ℕ) (c : Cache V)
      → let c' = (get now key c).1 in
        (c'.hits + c'.misses ≡ c.hits + c.misses + 1)
        × (lookup j c'.entries ≡ (
            if j == key then touched now (fresh now (lookup j c.entries)) else lookup j c.entries))
        × (c'.evictions ≡ (
            if is_some (lookup key c.entries) && not (is_some (fresh now (lookup key c.entries)))
            then c.evictions + 1
            else c.evictions))
  unfolding get
  get_effect now key j c = elim (Option-cases (lookup key c.entries)) [
    | inl missing ↦ ground arith
    | inr (e, there) ↦ elim (Bool-cases (expired now e)) [
      | inl old ↦ ground (arith, lookup-erase j key c.entries)
      | inr fresh_entry ↦
          ground (arith, lookup-insert j key (record e { last_accessed = now }) c.entries)
    ]
  ]

  lookup-live :
      (now k : ℕ) (d : Dict (Entry V)) → IsMap d → lookup k (live now d) ≡ fresh now (lookup k d)
  unfolding live
  lookup-live now k [] m = refl
  lookup-live now k ((j, e) ∷ d) m = elim (Bool-cases (k == j)) [
    | inl same ↦ ground (arith, lookup-live-none now j d m.0)
    | inr other ↦ ground (arith, lookup-live now k d m.1)
  ]

  -- In a map with distinct keys, the timer removes exactly the expired entries, and counts each as
  -- an eviction.
  pub cleanup_lem :
      (now k : ℕ) (c : Cache V)
      → IsMap c.entries
      → let c' = cleanup now c in
        (lookup k c'.entries ≡ fresh now (lookup k c.entries))
        × (length c'.entries + c'.evictions ≡ length c.entries + c.evictions)
  unfolding cleanup
  cleanup_lem now k c m = (lookup-live now k c.entries m, omega (arith, length-live now c.entries))
