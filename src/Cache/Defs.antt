-- ===== src/Cache/Defs.antt =====
-- `class MemoryCache`. A call reads the clock once: `now` is `Date.now()` all through it. Values are
-- `Option`s, since a stored `undefined` cannot be told from a missing one.
use siam_siam_ecosystem.Common.{
  ℕ, ◌+◌, Bool, false, not, Option, none, some, [], ◌∷◌, ◌&&◌, ltb, leb, if◌then◌else◌, truthy,
  or_default, length, is_some,
}
use siam_siam_ecosystem.Dict.{Dict, lookup, contains, insert, erase}

pub record Entry (V : Type 0) : Type 0 where
  pub value : Option V
  pub created_at : ℕ
  pub expires_at : Option ℕ
  pub last_accessed : ℕ

pub record Cache (V : Type 0) : Type 0 where
  pub max_size : ℕ
  pub default_ttl : ℕ
  pub entries : Dict (Entry V)
  pub hits : ℕ
  pub misses : ℕ
  pub sets : ℕ
  pub evictions : ℕ

module _ {V : Type 0} where
  -- the constructor, on `options.maxSize` and `options.defaultTTL`, where 0 is `undefined`
  unfoldable pub new : ℕ → ℕ → Cache V
  new max_size default_ttl = record {
    max_size = or_default max_size 10_000;
    default_ttl = or_default default_ttl 60_000;
    entries = [];
    hits = 0;
    misses = 0;
    sets = 0;
    evictions = 0;
  }

  -- `entry.expiresAt && Date.now() > entry.expiresAt`
  unfoldable pub expired : ℕ → Entry V → Bool
  expired now e = elim e.expires_at [ none ↦ false | some t ↦ truthy t && ltb t now ]

  unfoldable pub get : ℕ → ℕ → Cache V → Option V × Cache V
  get now key c = elim (lookup key c.entries) [
    | none ↦ (none, record c { misses = c.misses + 1 })
    | some e ↦
        if expired now e
        then (
          none,
          record c {
            entries = erase key c.entries;
            misses = c.misses + 1;
            evictions = c.evictions + 1;
          },
        )
        else (
          e.value,
          record c {
            entries = insert key (record e { last_accessed = now }) c.entries;
            hits = c.hits + 1;
          },
        )
  ]

  -- the loop of `_evictLRU`, on the best entry so far and the rest of the map
  unfoldable pub oldest_from : Option (ℕ × Entry V) → Dict (Entry V) → Option (ℕ × Entry V)
  oldest_from best [] = best
  oldest_from none ((k, e) ∷ d) = oldest_from (some (k, e)) d
  oldest_from (some (j, b)) ((k, e) ∷ d) =
      oldest_from (some (if ltb e.last_accessed b.last_accessed then (k, e) else (j, b))) d

  -- `_evictLRU`
  unfoldable pub evict_lru : Cache V → Cache V
  evict_lru c = elim (oldest_from none c.entries) [
    | none ↦ c
    | some (k, e) ↦
        if truthy k
        then record c { entries = erase k c.entries; evictions = c.evictions + 1 }
        else c
  ]

  -- a `ttl` of 0 stands for every one that is not above 0
  abbrev pub entry : ℕ → Option V → ℕ → Entry V
  entry now value ttl = record {
    value = value;
    created_at = now;
    expires_at = if truthy ttl then some (now + ttl) else none;
    last_accessed = now;
  }

  abbrev pub is_full_for : ℕ → Cache V → Bool
  is_full_for key c = leb c.max_size (length c.entries) && not (contains key c.entries)

  -- the first statement of `set`
  unfoldable pub make_room : ℕ → Cache V → Cache V
  make_room key c = if is_full_for key c then evict_lru c else c

  unfoldable pub set : ℕ → ℕ → Option V → ℕ → Cache V → Cache V
  set now key value ttl c =
      let c' = make_room key c in
      record c' { entries = insert key (entry now value ttl) c'.entries; sets = c'.sets + 1 }

  unfoldable pub del : ℕ → Cache V → Bool × Cache V
  del key c = (contains key c.entries, record c { entries = erase key c.entries })

  -- `has` is a `get`, and counts as one.
  unfoldable pub has : ℕ → ℕ → Cache V → Bool × Cache V
  has now key c = let (v, c') = get now key c in (is_some v, c')

  unfoldable pub clear : Cache V → Cache V
  clear c = record c { entries = [] }

  -- `fetchFn` may use the cache.
  unfoldable pub get_or_set :
      ℕ → ℕ → (Cache V → Option V × Cache V) → ℕ → Cache V → Option V × Cache V
  get_or_set now key fetch ttl c =
      let (cached, c') = get now key c in
      elim cached [
        | some v ↦ (some v, c')
        | none ↦ let (v, c'') = fetch c' in (v, set now key v ttl c'')
      ]

  -- the entries that the periodic cleanup leaves, and how many it deletes
  unfoldable pub live : ℕ → Dict (Entry V) → Dict (Entry V)
  live now [] = []
  live now ((k, e) ∷ d) = if expired now e then live now d else (k, e) ∷ live now d

  unfoldable pub cleaned : ℕ → Dict (Entry V) → ℕ
  cleaned now [] = 0
  cleaned now ((k, e) ∷ d) = if expired now e then cleaned now d + 1 else cleaned now d

  -- one run of the timer that `_startCleanup` starts
  unfoldable pub cleanup : ℕ → Cache V → Cache V
  cleanup now c = record c {
    entries = live now c.entries;
    evictions = c.evictions + cleaned now c.entries;
  }
