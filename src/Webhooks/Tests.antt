-- ===== src/Webhooks/Tests.antt =====
-- Runs of the webhook manager, and its theorems at concrete inputs.
use siam_siam_ecosystem.Webhooks.Sending.{Undecided, EndsAfter, delays_from, send_with_retry_lem}
use siam_siam_ecosystem.Webhooks.Defs.{
  status, lost, timed_out, get_delivery_status, send_with_retry, Config, Delivery, dispatch, Log,
  Reply, Tracked, track_delivery, send_from, max_retries, try_once, on_response, on_error,
  server_error,
}
use siam_siam_ecosystem.Webhooks.Log.{start, dispatched, get_delivery_status-dispatch}
use siam_siam_ecosystem.Common.{
  none, some, [], ◌∷◌, refl, arith, ℕ, ◌≤◌, ◌≡◌, if◌then◌else◌, ◌<◌, ◌==◌, false, true,
}

-- a failure of the server, an error on the way, then success
abbrev third : ℕ → Reply
third n = if n == 0 then status 503 else if n == 1 then lost timed_out else status 204

abbrev config : Config
config = record { url = 3; event = 4; webhook_id = 5 }

delivered_at_third : send_with_retry third ≡ record {
  delivery = record { success = true; attempts = 3; status_code = some 204; error = none };
  slept = 30_000 ∷ (120_000 ∷ []);
}
unfolding send_with_retry send_from try_once on_response on_error
delivered_at_third = refl

-- a redirection is reported as an error of the server
redirected : (send_with_retry (λ n. status 301)).delivery ≡ record {
  success = false;
  attempts = 6;
  status_code = some 301;
  error = some (server_error 301);
}
unfolding send_with_retry send_from try_once on_response on_error
redirected = refl

no_url : (dispatch third 1 (record config { url = 0 }) []).0 ≡ none
unfolding dispatch
no_url = refl

send_with_retry_lem_example :
    (n : ℕ) × (n ≤ max_retries)
    × ((j : ℕ) → j < n → Undecided (third j))
    × EndsAfter third 0 max_retries n (send_with_retry third).delivery
    × ((send_with_retry third).slept ≡ delays_from 1 n)
send_with_retry_lem_example = send_with_retry_lem third

abbrev logged : Log
logged = (dispatch third 8 config []).1

unknown : get_delivery_status 9 logged ≡ none
unfolding get_delivery_status dispatch track_delivery
unknown = refl

get_delivery_status-dispatch_example :
    (r : Delivery) × (t : Tracked) × ((dispatch (λ n. status 410) 9 config logged).0 ≡ some r)
    × (get_delivery_status 9 (dispatch (λ n. status 410) 9 config logged).1 ≡ some t)
    × (t.delivered ≡ r.success)
get_delivery_status-dispatch_example =
    get_delivery_status-dispatch (λ n. status 410) 9 config (dispatched third 8 config start)
      unknown (omega arith) (omega arith)
