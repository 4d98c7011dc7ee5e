-- ===== src/Cache/Bounds.antt =====
-- The cache keeps within its capacity.
use siam_siam_ecosystem.Common.{
  ℕ, ◌+◌, ◌≡◌, refl, ◌≢◌, ◌≤◌, ◌<◌, true, Option, none, [], ◌∷◌, length, arith, Bool-cases,
  Option-cases, inl, inr, ◌⊎◌, subst, sym,
}
use siam_siam_ecosystem.Dict.{
  Dict, lookup, contains, insert, erase, IsMap, lookup-insert, lookup-erase, length-erase,
  insert-IsMap, erase-IsMap, length-insert_old, length-insert_new, length-erase-le,
}
use siam_siam_ecosystem.Cache.Defs.{
  Entry, Cache, entry, expired, get, make_room, set, del, clear, live, cleaned, cleanup, get_or_set,
  is_full_for, has, new,
}
use siam_siam_ecosystem.Cache.Eviction.{make_room_full}

module _ {V : Type 0} where
  pub record IsValid (c : Cache V) : Type 0 where
    pub distinct : IsMap c.entries
    pub no_empty_key : lookup 0 c.entries ≡ none
    pub room : 0 < c.max_size
    pub bounded : length c.entries ≤ c.max_size

  pub lookup-live-none :
      (now k : ℕ) (d : Dict (Entry V)) → lookup k d ≡ none → lookup k (live now d) ≡ none
  unfolding live
  lookup-live-none now k [] h = refl
  lookup-live-none now k ((j, e) ∷ d) h = ground (arith, lookup-live-none now k d)

  pub live-IsMap : (now : ℕ) (d : Dict (Entry V)) → IsMap d → IsMap (live now d)
  unfolding live
  live-IsMap now [] m = tt
  live-IsMap now ((j, e) ∷ d) m = ground (arith, live-IsMap now d m.1, lookup-live-none now j d m.0)

  pub length-live : (now : ℕ) (d : Dict (Entry V)) → length (live now d) + cleaned now d ≡ length d
  unfolding live cleaned
  length-live now [] = omega arith
  length-live now ((j, e) ∷ d) = ground (arith, length-live now d)

  pub get-IsValid : (now key : ℕ) {c : Cache V} → IsValid c → IsValid (get now key c).1
  unfolding get
  get-IsValid now key {c} v = elim (Option-cases (lookup key c.entries)) [
    | inl missing ↦ ground arith
    | inr (e, there) ↦ elim (Bool-cases (expired now e)) [
      | inl old ↦ ground (
        arith,
        erase-IsMap key c.entries,
        lookup-erase 0 key c.entries,
        length-erase-le key c.entries,
      )
      | inr fresh ↦ ground (
        arith,
        insert-IsMap key (record e { last_accessed = now }) c.entries,
        lookup-insert 0 key (record e { last_accessed = now }) c.entries,
        length-insert_old key (record e { last_accessed = now }) c.entries,
      )
    ]
  ]

  erase-IsValid :
      (k : ℕ) {c : Cache V} (evictions : ℕ)
      → IsValid c
      → IsValid (record c { entries = erase k c.entries; evictions = evictions })
  erase-IsValid k {c} evictions v =
      ground
        (arith, erase-IsMap k c.entries, lookup-erase 0 k c.entries, length-erase-le k c.entries)

  abbrev HasRoom : ℕ → Cache V → Type 0
  HasRoom key c = (contains key c.entries ≡ true) ⊎ (length c.entries < c.max_size)

  -- After `make_room` there is a place for the key.
  make_room-IsValid :
      (key : ℕ) {c : Cache V}
      → IsValid c
      → IsValid (make_room key c) × HasRoom key (make_room key c)
  unfolding make_room
  make_room-IsValid key {c} v = elim (Bool-cases (is_full_for key c)) [
    | inl full ↦
        let (k, e, there, _, evicted) =
          make_room_full key c v.distinct v.no_empty_key v.room full in
        subst (λ d. IsValid d × HasRoom key d) (sym evicted)
          (
            erase-IsValid k (c.evictions + 1) v,
            inr (ground (arith, length-erase k c.entries v.distinct)),
          )
    | inr free ↦ ground arith
  ]

  insert-IsValid :
      (key : ℕ) (e : Entry V) (sets : ℕ) {c : Cache V}
      → key ≢ 0
      → IsValid c
      → (contains key c.entries ≡ true) ⊎ (length c.entries < c.max_size)
      → IsValid (record c { entries = insert key e c.entries; sets = sets })
  insert-IsValid key e sets {c} ne v h = ground (
    arith,
    insert-IsMap key e c.entries,
    lookup-insert 0 key e c.entries,
    length-insert_old key e c.entries,
    length-insert_new key e c.entries,
  )

  -- `set` under a key that is not empty keeps the cache valid, so within its capacity.
  pub set-IsValid :
      (now key : ℕ) (value : Option V) (ttl : ℕ) {c : Cache V}
      → key ≢ 0
      → IsValid c
      → IsValid (set now key value ttl c)
  unfolding set
  set-IsValid now key value ttl {c} ne v =
      let (v', room) = make_room-IsValid key v in
      insert-IsValid key (entry now value ttl) ((make_room key c).sets + 1) ne v' room

  cleanup-IsValid : (now : ℕ) {c : Cache V} → IsValid c → IsValid (cleanup now c)
  unfolding cleanup
  cleanup-IsValid now {c} v =
      ground (
        arith,
        live-IsMap now c.entries,
        lookup-live-none now 0 c.entries,
        length-live now c.entries,
      )

  del-IsValid : (key : ℕ) {c : Cache V} → IsValid c → IsValid (del key c).1
  unfolding del
  del-IsValid key {c} v = erase-IsValid key c.evictions v

  clear-IsValid : {c : Cache V} → IsValid c → IsValid (clear c)
  unfolding clear
  clear-IsValid v = ground arith

  -- One operation on the cache, with keys that are not empty; `getOrSet` with whatever valid cache
  -- its callback leaves.
  pub data Step : Cache V → Cache V → Type 0 where
    by_get : (now key : ℕ) (c : Cache V) → Step c (get now key c).1
    by_set :
        (now key : ℕ) (value : Option V) (ttl : ℕ) (c : Cache V)
        → key ≢ 0
        → Step c (set now key value ttl c)
    by_del : (key : ℕ) (c : Cache V) → Step c (del key c).1
    by_has : (now key : ℕ) (c : Cache V) → Step c (has now key c).1
    by_clear : (c : Cache V) → Step c (clear c)
    by_timer : (now : ℕ) (c : Cache V) → Step c (cleanup now c)
    by_get_or_set :
        (now key : ℕ) (fetch : Cache V → Option V × Cache V) (ttl : ℕ) (c : Cache V)
        → key ≢ 0
        → ((d : Cache V) → IsValid d → IsValid (fetch d).1)
        → Step c (get_or_set now key fetch ttl c).1

  pub data Reach (c : Cache V) : Cache V → Type 0 where
    start : Reach c c
    next : {d e : Cache V} → Reach c d → Step d e → Reach c e

  get_or_set-IsValid :
      (now key : ℕ) (fetch : Cache V → Option V × Cache V) (ttl : ℕ) (c : Cache V)
      → key ≢ 0
      → ((d : Cache V) → IsValid d → IsValid (fetch d).1)
      → IsValid c
      → IsValid (get_or_set now key fetch ttl c).1
  unfolding get_or_set
  get_or_set-IsValid now key fetch ttl c ne keeps v = elim (Option-cases (get now key c).0) [
    | inl missing ↦
        let fetched = fetch (get now key c).1 in
        rw (missing, get_or_set)
          (set-IsValid now key fetched.0 ttl ne (keeps (get now key c).1 (get-IsValid now key v)))
    | inr (x, cached) ↦ rw (cached, get_or_set) (get-IsValid now key v)
  ]

  Step-IsValid : {c d : Cache V} → Step c d → IsValid c → IsValid d
  unfolding has
  Step-IsValid (by_get now key c) v = get-IsValid now key v
  Step-IsValid (by_set now key value ttl c ne) v = set-IsValid now key value ttl ne v
  Step-IsValid (by_del key c) v = del-IsValid key v
  Step-IsValid (by_has now key c) v = get-IsValid now key v
  Step-IsValid (by_clear c) v = clear-IsValid v
  Step-IsValid (by_timer now c) v = cleanup-IsValid now v
  Step-IsValid (by_get_or_set now key fetch ttl c ne keeps) v =
      get_or_set-IsValid now key fetch ttl c ne keeps v

  -- Whatever is done to a valid cache, in whatever order, with keys that are not empty, leaves it
  -- valid: its keys distinct and not empty, and no more entries than its capacity.
  pub Reach-IsValid : {c d : Cache V} → IsValid c → Reach c d → IsValid d
  Reach-IsValid v start = v
  Reach-IsValid v (next r s) = Step-IsValid s (Reach-IsValid v r)

  pub new-IsValid : (max_size default_ttl : ℕ) → IsValid (new {V = V} max_size default_ttl)
  unfolding new
  new-IsValid max_size default_ttl = ground arith
