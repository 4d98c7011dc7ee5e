-- ===== src/Webhooks/Sending.antt =====
-- How often a webhook is sent, and how that ends.
use mathlib.Core.List.{append-nil, append_assoc}
use siam_siam_ecosystem.Common.{sym, ap, ◌∙◌, subst, ◌++◌}
use siam_siam_ecosystem.Webhooks.Defs.{
  status, lost, try_once, Reply, Last, Delivery, on_error, on_response, delay, Run, client_error,
  max_retries, send_from, send_with_retry,
}
use siam_siam_ecosystem.Common.{
  none, some, [], ◌∷◌, zero, suc, inl, inr, ◌⊎◌, refl, arith, ℕ, List, ◌≤◌, ◌≡◌, ◌<◌, true, ◌+◌,
  Bool-cases, false, leb, ◌&&◌, ltb, if◌then◌else◌, ◌++◌, Sum-cases,
}

abbrev pub Delivers : Reply → Type 0
Delivers (status s) = (200 ≤ s) × (s < 300)
Delivers (lost c) = ⊥

abbrev pub Rejects : Reply → Type 0
Rejects (status s) = (400 ≤ s) × (s < 500)
Rejects (lost c) = ⊥

-- a redirection, a failure of the server, or an error on the way
pub record Undecided (r : Reply) : Type 0 where
  pub not_delivered : ¬ (Delivers r)
  pub not_rejected : ¬ (Rejects r)

-- how a round decides the delivery
pub data Decides (r : Reply) (attempt : ℕ) (d : Delivery) : Type 0 where
  delivered : Delivers r → d.success ≡ true → d.attempts ≡ attempt + 1 → Decides r attempt d
  rejected : Rejects r → d.success ≡ false → d.attempts ≡ attempt + 1 → Decides r attempt d

abbrev Round : (attempt : ℕ) → Last → Reply → Type 0
Round attempt last r =
    ((d : Delivery) × (try_once attempt last r ≡ inl d) × Decides r attempt d)
    ⊎ ((next : Last) × (try_once attempt last r ≡ inr next) × Undecided r)

round_lem : (attempt : ℕ) (last : Last) (r : Reply) → Round attempt last r
unfolding try_once on_error on_response
round_lem attempt last (lost c) =
    inr (_, refl, record { not_delivered = λ h. h; not_rejected = λ h. h })
round_lem attempt last (status s) = elim (Bool-cases (leb 200 s && ltb s 300)) [
  | inl good ↦ inl (
    record { success = true; attempts = attempt + 1; status_code = some s; error = none },
    ground arith,
    delivered (ground arith, ground arith) refl refl,
  )
  | inr e ↦ elim (Bool-cases (leb 400 s && ltb s 500)) [
    | inl bad ↦ inl (
      record {
        success = false;
        attempts = attempt + 1;
        status_code = some s;
        error = some (client_error s);
      },
      ground arith,
      rejected (ground arith, ground arith) refl refl,
    )
    | inr f ↦ elim (Sum-cases (try_once attempt last (status s))) [
      | inl (d, decided) ↦ absurd (ground arith)
      | inr (next, goes_on) ↦ inr (
        next,
        goes_on,
        record { not_delivered = λ h. ground arith; not_rejected = λ h. ground arith },
      )
    ]
  ]
]

-- the delays before the attempts from `k` on
abbrev pub delays_from : (k n : ℕ) → List ℕ
delays_from k zero = []
delays_from k (suc n) = delay k ∷ delays_from (k + 1) n

module _ (reply : ℕ → Reply) where
  -- the run of the loop from attempt `k` on, with `left` rounds after this one, ends after `n` more rounds
  abbrev pub EndsAfter : (k left n : ℕ) → Delivery → Type 0
  EndsAfter k left n d =
      Decides (reply (k + n)) (k + n) d
      ⊎ ((n ≡ left)
          × Undecided (reply (k + n))
          × (d.success ≡ false)
          × (d.attempts ≡ max_retries + 1))

  abbrev pub Ends : (k left n : ℕ) → (slept : List ℕ) → Run → Type 0
  Ends k left n slept r =
      ((j : ℕ) → j < n → Undecided (reply (k + j)))
      × EndsAfter k left n r.delivery
      × (r.slept ≡ slept ++ delays_from (k + 1) n)

  waited : (attempt : ℕ) → List ℕ → List ℕ
  waited attempt slept = if ltb 0 attempt then slept ++ (delay attempt ∷ []) else slept

  send_decided :
      (left k : ℕ) (last : Last) (slept : List ℕ) (d : Delivery)
      → try_once k last (reply k) ≡ inl d
      → send_from reply (suc left) k last slept ≡ record { delivery = d; slept = waited k slept }
  unfolding send_from waited
  send_decided left k last slept d e = rw (e, send_from) refl

  send_on :
      (left k : ℕ) (last next : Last) (slept : List ℕ)
      → try_once k last (reply k) ≡ inr next
      → send_from reply (suc left) k last slept ≡ send_from reply left (k + 1) next (waited k slept)
  unfolding send_from waited
  send_on left k last next slept e = rw (e, send_from) refl

  waited_next : (k : ℕ) (slept : List ℕ) → waited (k + 1) slept ≡ slept ++ (delay (k + 1) ∷ [])
  unfolding waited
  waited_next k slept = ground arith

  send_over :
      (k : ℕ) (last next : Last) (slept : List ℕ)
      → try_once k last (reply k) ≡ inr next
      → send_from reply 1 k last slept ≡ record {
        delivery = record {
          success = false;
          attempts = max_retries + 1;
          status_code = next.status_code;
          error = next.error;
        };
        slept = waited k slept;
      }
  unfolding send_from
  send_over k last next slept e = send_on 0 k last next slept e

  Ends-decided :
      (left k : ℕ) (slept : List ℕ) (d : Delivery)
      → Decides (reply k) k d
      → Ends k left 0 slept (record { delivery = d; slept = slept })
  Ends-decided left k slept d h = (
    (λ j lt. absurd (omega arith)),
    inl (subst (λ i. Decides (reply i) i d) (omega arith) h),
    sym (append-nil slept),
  )

  Ends-over :
      (k : ℕ) (slept : List ℕ) (d : Delivery)
      → Undecided (reply k)
      → d.success ≡ false
      → d.attempts ≡ max_retries + 1
      → Ends k 0 0 slept (record { delivery = d; slept = slept })
  Ends-over k slept d u f a = (
    (λ j lt. absurd (omega arith)),
    inr (refl, subst (λ i. Undecided (reply i)) (omega arith) u, f, a),
    sym (append-nil slept),
  )

  all_suc :
      (k n : ℕ)
      → Undecided (reply k)
      → ((j : ℕ) → j < n → Undecided (reply (k + 1 + j)))
      → (j : ℕ) → j < suc n
      → Undecided (reply (k + j))
  all_suc k n first rest zero lt = subst (λ i. Undecided (reply i)) (omega arith) first
  all_suc k n first rest (suc j) lt =
      subst (λ i. Undecided (reply i)) (omega arith) (rest j (omega arith))

  EndsAfter-suc :
      (k left n : ℕ) (d : Delivery) → EndsAfter (k + 1) left n d → EndsAfter k (suc left) (suc n) d
  EndsAfter-suc k left n d (inl h) = inl (subst (λ i. Decides (reply i) i d) (omega arith) h)
  EndsAfter-suc k left n d (inr (l, u, f, a)) =
      inr (omega arith, subst (λ i. Undecided (reply i)) (omega arith) u, f, a)

  Ends-later :
      (k left n : ℕ) (slept : List ℕ) (r : Run)
      → Undecided (reply k)
      → Ends (k + 1) left n (waited (k + 1) slept) r
      → Ends k (suc left) (suc n) slept r
  Ends-later k left n slept r u (all, ends, waits) = (
    all_suc k n u all,
    EndsAfter-suc k left n r.delivery ends,
    waits
        ∙ ap (λ l. l ++ delays_from (k + 1 + 1) n) (waited_next k slept)
        ∙ append_assoc slept (delay (k + 1) ∷ []) (delays_from (k + 1 + 1) n),
  )

  send_from_lem :
      (left k : ℕ) (last : Last) (slept : List ℕ)
      → (n : ℕ) × (n ≤ left)
        × Ends k left n (waited k slept) (send_from reply (suc left) k last slept)
  send_from_lem zero k last slept = elim (round_lem k last (reply k)) [
    | inl (d, e, h) ↦ (
      0,
      omega arith,
      subst (λ r. Ends k 0 0 (waited k slept) r) (sym (send_decided 0 k last slept d e))
          (Ends-decided 0 k (waited k slept) d h),
    )
    | inr (next, e, u) ↦ (
      0,
      omega arith,
      subst (λ r. Ends k 0 0 (waited k slept) r) (sym (send_over k last next slept e))
          (Ends-over k (waited k slept) _ u refl refl),
    )
  ]
  send_from_lem (suc left) k last slept = elim (round_lem k last (reply k)) [
    | inl (d, e, h) ↦ (
      0,
      omega arith,
      subst (λ r. Ends k (suc left) 0 (waited k slept) r)
          (sym (send_decided (suc left) k last slept d e))
          (Ends-decided (suc left) k (waited k slept) d h),
    )
    | inr (next, e, u) ↦
        let (n, few, ends) = send_from_lem left (k + 1) next (waited k slept) in
        (
          suc n,
          omega arith,
          subst (λ r. Ends k (suc left) (suc n) (waited k slept) r)
              (sym (send_on (suc left) k last next slept e))
              (Ends-later k left n (waited k slept) _ u ends),
        )
  ]

  -- A webhook is sent at most six times. The attempts before the last one met redirections, failures of
  -- the server or errors on the way, and after each of them the delay of the next attempt was slept. The
  -- last one decides: it was delivered if the status is of the 200s, it is given up if the status is of
  -- the 400s, and if all six were as the others, six attempts are reported as failed.
  pub send_with_retry_lem :
      (n : ℕ) × (n ≤ max_retries)
      × ((j : ℕ) → j < n → Undecided (reply j))
      × EndsAfter 0 max_retries n (send_with_retry reply).delivery
      × ((send_with_retry reply).slept ≡ delays_from 1 n)
  unfolding send_with_retry waited
  send_with_retry_lem =
      let (n, few, (all, ends, waits)) =
        send_from_lem max_retries 0 (record { error = none; status_code = none }) [] in
      (n, few, (λ j lt. subst (λ i. Undecided (reply i)) (omega arith) (all j lt)), ends, waits)
