-- ===== src/Alerts/HistoryBound.antt =====
-- How long the history can get: it is trimmed when an alert fires and not when one is resolved.
use siam_siam_ecosystem.Common.{
  ℕ, ◌+◌, ◌-◌, ◌≡◌, ◌≤◌, ◌++◌, true, false, not, ◌&&◌, some, List, [], ◌∷◌, arith, Option-cases,
  Bool-cases, inl, inr, length, length-append, length-drop, ◌==◌,
}
use siam_siam_ecosystem.Dict.{
  lookup, contains, insert, IsMap, lookup-insert, lookup-erase, insert-IsMap, erase-IsMap,
  length-insert_old, length-erase, length-le, Dict, length-insert_new,
}
use siam_siam_ecosystem.Alerts.Defs.{
  Manager, Rule, Alert, Entry, trigger_alert, resolve_alert, new_alert, in_cooldown, trim, resolved,
  triggered, cleared, add_rule, evaluate_rules, Config, new, evaluate, evaluate_rule, rule_of,
  reaches,
}

-- Alerts belong to rules, and the history is longer than its size by no more than there are rules
-- without an alert.
pub record IsBounded (s : Manager) : Type 0 where
  pub distinct : IsMap s.active_alerts
  pub known : (k : ℕ) → (contains k s.active_alerts && not (contains k s.rules)) ≡ false
  pub bounded :
      length s.alert_history + length s.active_alerts ≤ s.max_history_size + length s.rules

length-trim : (size : ℕ) (es : List Entry) → length (trim size es) ≤ size
length-trim size es = ground (arith, length-drop (length es - size) es)

trigger_alert-IsBounded :
    (now id : ℕ) (rule : Rule) (value labels : ℕ) (s : Manager)
    → contains id s.rules ≡ true
    → IsBounded s
    → IsBounded (trigger_alert now id rule value labels s)
unfolding trigger_alert
trigger_alert-IsBounded now id rule value labels s there b =
    elim (Option-cases (lookup id s.active_alerts)) [
      | inr (a, active) ↦
          let a' : Alert = record a { current_value = value; updated_at = now } in
          rw (active, trigger_alert)
            (record {
              distinct = insert-IsMap id a' s.active_alerts b.distinct;
              known = λ k. ground (arith, b.known k, lookup-insert k id a' s.active_alerts);
              bounded = ground (arith, b.bounded, length-insert_old id a' s.active_alerts);
            })
      | inl none_active ↦ elim (Bool-cases (in_cooldown now id rule s.alert_history)) [
        | inl quiet ↦ rw (none_active, quiet, trigger_alert) b
        | inr loud ↦
            let alert = new_alert now rule value labels in
            let entries =
              s.alert_history
              ++ (record { rule_id = id; alert = alert; kind = triggered; timestamp = now } ∷ []) in
            let distinct' = insert-IsMap id alert s.active_alerts b.distinct in
            let known' : (k : ℕ)
                → (contains k (insert id alert s.active_alerts) && not (contains k s.rules))
                  ≡ false =
              λ k. ground (arith, b.known k, lookup-insert k id alert s.active_alerts) in
            rw (none_active, loud, trigger_alert)
              (record {
                distinct = distinct';
                known = known';
                bounded = omega (
                  arith,
                  length-trim s.max_history_size entries,
                  length-le (insert id alert s.active_alerts) s.rules distinct' known',
                );
              })
      ]
    ]

resolve_alert-IsBounded :
    (now id : ℕ) (s : Manager) → IsBounded s → IsBounded (resolve_alert now id s)
unfolding resolve_alert
resolve_alert-IsBounded now id s b = elim (Option-cases (lookup id s.active_alerts)) [
  | inl none_active ↦ rw (none_active, resolve_alert) b
  | inr (a, active) ↦
      rw (active, resolve_alert)
        (record {
          distinct = erase-IsMap id s.active_alerts b.distinct;
          known = λ k. ground (arith, b.known k, lookup-erase k id s.active_alerts);
          bounded = ground (
            arith,
            b.bounded,
            length-erase id s.active_alerts b.distinct,
            length-append s.alert_history (
                record {
                  rule_id = id;
                  alert = record a { status = resolved; resolved_at = some now };
                  kind = cleared;
                  timestamp = now;
                }
                ∷ []),
          );
        })
]

evaluate_rule-rules :
    (now metric value labels id : ℕ) (rule : Rule) (s : Manager)
    → (evaluate_rule now metric value labels id rule s).rules ≡ s.rules
unfolding evaluate_rule
evaluate_rule-rules now metric value labels id rule s = ground arith

evaluate_rule-IsBounded :
    (now metric value labels id : ℕ) (rule : Rule) (s : Manager)
    → contains id s.rules ≡ true
    → IsBounded s
    → IsBounded (evaluate_rule now metric value labels id rule s)
unfolding evaluate_rule
evaluate_rule-IsBounded now metric value labels id rule s there b = elim (Bool-cases rule.enabled) [
  | inr disabled ↦ rw (disabled, evaluate_rule) b
  | inl enabled ↦ elim (Bool-cases (rule.metric == metric)) [
    | inr other ↦ rw (enabled, other, evaluate_rule) b
    | inl same_metric ↦ elim (Bool-cases (reaches value rule)) [
      | inl high ↦
          rw (enabled, same_metric, high, evaluate_rule)
            (trigger_alert-IsBounded now id rule value labels s there b)
      | inr low ↦ rw (enabled, same_metric, low, evaluate_rule) (resolve_alert-IsBounded now id s b)
    ]
  ]
]

evaluate_rules-IsBounded :
    (now metric value labels : ℕ) (d : Dict Rule) (s : Manager)
    → ((k : ℕ) → (contains k d && not (contains k s.rules)) ≡ false)
    → IsBounded s
    → IsBounded (evaluate_rules now metric value labels d s)
unfolding evaluate_rules
evaluate_rules-IsBounded now metric value labels [] s sub b = b
evaluate_rules-IsBounded now metric value labels ((id, rule) ∷ d) s sub b =
    let s' = evaluate_rule now metric value labels id rule s in
    let same_rules = evaluate_rule-rules now metric value labels id rule s in
    evaluate_rules-IsBounded now metric value labels d s'
      (λ k. rw same_rules (ground (arith, sub k)))
      (evaluate_rule-IsBounded now metric value labels id rule s (ground (arith, sub id)) b)

evaluate-IsBounded :
    (now metric value labels : ℕ) (s : Manager)
    → IsBounded s
    → IsBounded (evaluate now metric value labels s)
unfolding evaluate
evaluate-IsBounded now metric value labels s b =
    evaluate_rules-IsBounded now metric value labels s.rules s (λ k. ground arith) b

add_rule-IsBounded : (id : ℕ) (c : Config) (s : Manager) → IsBounded s → IsBounded (add_rule id c s)
unfolding add_rule
add_rule-IsBounded id c s b = record {
  distinct = b.distinct;
  known = λ k. ground (arith, b.known k, lookup-insert k id (rule_of id c) s.rules);
  bounded = ground (
    arith,
    b.bounded,
    length-insert_old id (rule_of id c) s.rules,
    length-insert_new id (rule_of id c) s.rules,
  );
}

pub data Step : Manager → Manager → Type 0 where
  adds : (id : ℕ) (c : Config) (s : Manager) → Step s (add_rule id c s)
  evaluates :
      (now metric value labels : ℕ) (s : Manager) → Step s (evaluate now metric value labels s)

pub data Reach (s : Manager) : Manager → Type 0 where
  start : Reach s s
  next : {t u : Manager} → Reach s t → Step t u → Reach s u

Reach-IsBounded : {s t : Manager} → IsBounded s → Reach s t → IsBounded t
Reach-IsBounded b start = b
Reach-IsBounded b (next r (adds id c s)) = add_rule-IsBounded id c s (Reach-IsBounded b r)
Reach-IsBounded b (next r (evaluates now metric value labels s)) =
    evaluate-IsBounded now metric value labels s (Reach-IsBounded b r)

new-IsBounded : IsBounded new
new-IsBounded = ground arith

-- In every state that calls can lead to from the start, each active alert belongs to a rule, and the
-- history and the active alerts together are no more than the history's size and the rules together.
pub reachable-IsBounded : {s : Manager} → Reach new s → IsBounded s
reachable-IsBounded = Reach-IsBounded new-IsBounded
