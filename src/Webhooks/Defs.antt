-- ===== src/Webhooks/Defs.antt =====
-- `class WebhookManager`. What the other side answers to each attempt is a sequence; a text is a number and
-- a missing one 0; waiting is the list of the delays slept. Signatures, the log and the durations, which
-- have no effect on the rest, are left out.
use siam_siam_ecosystem.Dict.{Dict, insert, erase, lookup}
use siam_siam_ecosystem.Common.{
  none, some, [], ◌∷◌, zero, suc, Option, ℕ, Bool, List, false, if◌then◌else◌, leb, ◌⊎◌, ◌+◌, not,
  inr, ltb, ◌&&◌, truthy, length, ◌++◌, inl, true, ◌||◌, ◌-◌, ◌==◌,
}

pub data ErrorCode : Type 0 where
  refused timed_out not_found bad_response : ErrorCode
  other : ℕ → ErrorCode

-- what a request meets: a response with a status, or an error on the way
pub data Reply : Type 0 where
  status : ℕ → Reply
  lost : ErrorCode → Reply

pub data Failure : Type 0 where
  client_error : (status : ℕ) → Failure
  server_error : (status : ℕ) → Failure
  dns_failed : Failure
  network : ErrorCode → Failure

pub record Delivery : Type 0 where
  pub success : Bool
  pub attempts : ℕ
  pub status_code : Option ℕ
  pub error : Option Failure

abbrev pub max_retries : ℕ
max_retries = 5

-- `retryDelays[attempt] || retryDelays[retryDelays.length - 1]`
abbrev pub delay : ℕ → ℕ
delay n =
    if n == 1
    then 30_000
    else if n == 2
    then 120_000
    else if n == 3
    then 300_000
    else if n == 4
    then 900_000
    else 3_600_000

-- the option `validateStatus`: `axios` throws where it is false
abbrev pub validate_status : ℕ → Bool
validate_status s = leb 200 s && ltb s 500

pub record Last : Type 0 where
  pub error : Option Failure
  pub status_code : Option ℕ

-- `axios.post` resolves, and the loop looks at the status
unfoldable pub on_response : (attempt : ℕ) → Last → ℕ → Delivery ⊎ Last
on_response attempt last s =
    if leb 200 s && ltb s 300
    then inl (record { success = true; attempts = attempt + 1; status_code = some s; error = none })
    else if leb 400 s && ltb s 500
    then inl (record {
      success = false;
      attempts = attempt + 1;
      status_code = some s;
      error = some (client_error s);
    })
    else inr (record { error = some (server_error s); status_code = some s })

-- `axios.post` throws; an error of the resolver is already one of the network errors
unfoldable pub on_error : (attempt : ℕ) → Last → ErrorCode → Delivery ⊎ Last
on_error attempt last code = inr (record last { error = some (network code) })

-- one round of the loop: its result, or what the next round starts from
unfoldable pub try_once : (attempt : ℕ) → Last → Reply → Delivery ⊎ Last
try_once attempt last (status s) =
    if validate_status s then on_response attempt last s else on_error attempt last bad_response
try_once attempt last (lost code) = on_error attempt last code

pub record Run : Type 0 where
  pub delivery : Delivery
  pub slept : List ℕ

-- the loop of `_sendWithRetry`, with the rounds that are left
unfoldable pub send_from : (ℕ → Reply) → (left attempt : ℕ) → Last → List ℕ → Run
send_from reply zero attempt last slept = record {
  delivery = record {
    success = false;
    attempts = max_retries + 1;
    status_code = last.status_code;
    error = last.error;
  };
  slept = slept;
}
send_from reply (suc left) attempt last slept =
    let waited = if ltb 0 attempt then slept ++ (delay attempt ∷ []) else slept in
    elim (try_once attempt last (reply attempt)) [
      | inl r ↦ record { delivery = r; slept = waited }
      | inr next ↦ send_from reply left (attempt + 1) next waited
    ]

-- `_sendWithRetry`
unfoldable pub send_with_retry : (ℕ → Reply) → Run
send_with_retry reply =
    send_from reply (max_retries + 1) 0 (record { error = none; status_code = none }) []

pub record Config : Type 0 where
  pub url : ℕ
  pub event : ℕ
  pub webhook_id : ℕ

pub record Tracked : Type 0 where
  pub webhook_id : ℕ
  pub event : ℕ
  pub url : ℕ
  pub delivered : Bool
  pub attempts : ℕ
  pub status_code : Option ℕ
  pub error : Option Failure

abbrev pub Log : Type 0
Log = Dict Tracked

abbrev pub max_log : ℕ
max_log = 10_000

-- the first keys of a map
unfoldable pub first_keys : ℕ → Log → List ℕ
first_keys zero d = []
first_keys (suc n) [] = []
first_keys (suc n) ((k, t) ∷ d) = k ∷ first_keys n d

unfoldable pub delete_keys : List ℕ → Log → Log
delete_keys [] d = d
delete_keys (k ∷ ks) d = delete_keys ks (erase k d)

-- `_trackDelivery`
unfoldable pub track_delivery : (id : ℕ) → Tracked → Log → Log
track_delivery id info d =
    let tracked = insert id info d in
    if ltb max_log (length tracked)
    then delete_keys (first_keys (length tracked - max_log) tracked) tracked
    else tracked

-- `dispatch`, at the new identifier: `none` where it throws
unfoldable pub dispatch : (ℕ → Reply) → (id : ℕ) → Config → Log → Option Delivery × Log
dispatch reply id c d =
    let r = (send_with_retry reply).delivery in
    if not (truthy c.url) || not (truthy c.event) then (none, d) else (
      some r,
      track_delivery id
          (record {
            webhook_id = c.webhook_id;
            event = c.event;
            url = c.url;
            delivered = r.success;
            attempts = r.attempts;
            status_code = r.status_code;
            error = r.error;
          })
          d,
    )

-- `getDeliveryStatus`; 'unknown' is `none`
unfoldable pub get_delivery_status : ℕ → Log → Option Tracked
get_delivery_status id d = lookup id d
