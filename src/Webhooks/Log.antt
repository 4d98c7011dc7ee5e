-- ===== src/Webhooks/Log.antt =====
-- The log of deliveries.
use siam_siam_ecosystem.Dict.{
  IsMap, insert, insert-IsMap, length-insert-le, erase-IsMap, length-erase-lt, lookup, erase,
  lookup-insert_self, lookup-erase_ne,
}
use siam_siam_ecosystem.Webhooks.Defs.{
  delete_keys, dispatch, track_delivery, Log, first_keys, Reply, Tracked, Config, max_log,
  get_delivery_status, Delivery,
}
use siam_siam_ecosystem.Common.{
  [], ◌∷◌, arith, Bool-cases, ℕ, length, not, ◌≡◌, truthy, ◌≤◌, ◌||◌, inl, ◌+◌, ltb, inr, ltb→lt,
  subst, ◌≢◌, none, some, ==_ne, ◌<◌, ap, refl, false, ◌∙◌,
}

-- the logs that dispatches can lead to
pub data Reached : Log → Type 0 where
  start : Reached []
  dispatched :
      {d : Log} (reply : ℕ → Reply) (id : ℕ) (c : Config)
      → Reached d
      → Reached (dispatch reply id c d).1

pub record IsKept (d : Log) : Type 0 where
  pub is_map : IsMap d
  pub bounded : length d ≤ max_log

-- one entry too many: the first one goes
delete_first :
    (d : Log) → IsMap d → length d ≡ max_log + 1 → IsKept (delete_keys (first_keys 1 d) d)
unfolding delete_keys first_keys
delete_first [] m l = absurd (omega arith)
delete_first ((k, t) ∷ d) m l = record {
  is_map = erase-IsMap k ((k, t) ∷ d) m;
  bounded = omega (arith, length-erase-lt k ((k, t) ∷ d) (ground arith));
}

track_delivery-IsKept :
    (id : ℕ) (info : Tracked) (d : Log) → IsKept d → IsKept (track_delivery id info d)
unfolding track_delivery
track_delivery-IsKept id info d v =
    let tracked = insert id info d in
    let m = insert-IsMap id info d (v.is_map) in
    let few = length-insert-le id info d in
    elim (Bool-cases (ltb max_log (length tracked))) [
      | inl full ↦
          let one : length tracked ≡ max_log + 1 =
            omega (arith, ltb→lt max_log (length tracked) full) in
          rw full (
            subst (λ n. IsKept (delete_keys (first_keys n tracked) tracked)) (omega arith)
              (delete_first tracked m one))
      | inr fits ↦ rw fits (record { is_map = m; bounded = ground arith })
    ]

-- In every state that dispatches can lead to, the log has at most 10,000 entries, of distinct deliveries.
pub reached-IsKept : {d : Log} → Reached d → IsKept d
unfolding dispatch
reached-IsKept start = record { is_map = tt; bounded = omega arith }
reached-IsKept (dispatched {d} reply id c r) =
    let v = reached-IsKept r in
    elim (Bool-cases (not (truthy c.url) || not (truthy c.event))) [
      | inl e ↦ rw e v
      | inr e ↦ rw e (track_delivery-IsKept id _ d v)
    ]

delete_other :
    (id k : ℕ) (info t : Tracked) (d : Log)
    → id ≢ k
    → delete_keys (first_keys 1 (insert id info ((k, t) ∷ d))) (insert id info ((k, t) ∷ d))
      ≡ erase k (insert id info ((k, t) ∷ d))
unfolding delete_keys first_keys
delete_other id k info t d h = rw (==_ne id k h) refl

new_ne_first : (id k : ℕ) (t : Tracked) (d : Log) → lookup id ((k, t) ∷ d) ≡ none → id ≢ k
new_ne_first id k t d h e = ground arith

delete_keeps :
    (id : ℕ) (info : Tracked) (d : Log)
    → lookup id d ≡ none
    → max_log < length (insert id info d)
    → lookup id (delete_keys (first_keys 1 (insert id info d)) (insert id info d)) ≡ some info
delete_keeps id info [] h l = absurd (omega arith)
delete_keeps id info ((k, t) ∷ d) h l =
    let other = new_ne_first id k t d h in
    ap (lookup id) (delete_other id k info t d other)
    ∙ lookup-erase_ne id k (insert id info ((k, t) ∷ d)) other
    ∙ lookup-insert_self id info ((k, t) ∷ d)

lookup-track_delivery :
    (id : ℕ) (info : Tracked) (d : Log)
    → IsKept d
    → lookup id d ≡ none
    → lookup id (track_delivery id info d) ≡ some info
unfolding track_delivery
lookup-track_delivery id info d v h =
    let tracked = insert id info d in
    let few = length-insert-le id info d in
    elim (Bool-cases (ltb max_log (length tracked))) [
      | inl full ↦ rw full (
          subst (λ n. lookup id (delete_keys (first_keys n tracked) tracked) ≡ some info)
            (omega (arith, v.bounded, ltb→lt max_log (length tracked) full))
            (delete_keeps id info d h (ltb→lt max_log (length tracked) full)))
      | inr fits ↦ rw fits (lookup-insert_self id info d)
    ]

-- A dispatch under a new identifier, with a URL and an event, from a state that dispatches can lead to:
-- `getDeliveryStatus` then finds it, as delivered exactly if the dispatch answered success, also where
-- the log was full and its first entry had to go.
pub get_delivery_status-dispatch :
    {d : Log} (reply : ℕ → Reply) (id : ℕ) (c : Config)
    → Reached d
    → get_delivery_status id d ≡ none
    → 0 < c.url
    → 0 < c.event
    → (r : Delivery) × (t : Tracked) × ((dispatch reply id c d).0 ≡ some r)
      × (get_delivery_status id (dispatch reply id c d).1 ≡ some t)
      × (t.delivered ≡ r.success)
unfolding dispatch get_delivery_status
get_delivery_status-dispatch {d} reply id c reached new u e =
    let usable : (not (truthy c.url) || not (truthy c.event)) ≡ false = ground arith in
    rw usable (_, _, refl, lookup-track_delivery id _ d (reached-IsKept reached) new, refl)
