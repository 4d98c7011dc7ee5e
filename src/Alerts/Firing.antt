-- ===== src/Alerts/Firing.antt =====
-- Which alerts are active after a value has been evaluated.
use siam_siam_ecosystem.Common.{
  ℕ, ◌≡◌, Bool, not, ◌&&◌, Option, none, some, if◌then◌else◌, ◌==◌, arith, Option-cases, inl, inr,
}
use siam_siam_ecosystem.Dict.{lookup, lookup-insert, lookup-erase}
use siam_siam_ecosystem.Alerts.Defs.{
  Manager, Rule, Alert, trigger_alert, resolve_alert, evaluate_rule, new_alert, in_cooldown,
  reaches,
}

abbrev pub applies : ℕ → Rule → Bool
applies metric rule = rule.enabled && (rule.metric == metric)

-- what one rule makes of its alert
abbrev pub verdict : ℕ → ℕ → ℕ → ℕ → ℕ → Rule → Manager → Option Alert
verdict now metric value labels id rule s =
    if not (applies metric rule)
    then lookup id s.active_alerts
    else if reaches value rule
    then (elim (lookup id s.active_alerts) [
      | some a ↦ some (record a { current_value = value; updated_at = now })
      | none ↦
          if in_cooldown now id rule s.alert_history
          then none
          else some (new_alert now rule value labels)
    ])
    else none

-- One rule on one value: no other rule's alert changes. A rule that is disabled or on another metric
-- leaves its own alert as it is; a value below the threshold leaves no alert; a value that reaches
-- it updates an active alert, and otherwise fires a new one unless the rule is in its cooldown.
pub evaluate_rule_lem :
    (now metric value labels id other : ℕ) (rule : Rule) (s : Manager)
    → lookup other (evaluate_rule now metric value labels id rule s).active_alerts ≡ (
        if other == id
        then verdict now metric value labels id rule s
        else lookup other s.active_alerts)
unfolding evaluate_rule trigger_alert resolve_alert
evaluate_rule_lem now metric value labels id other rule s =
    elim (Option-cases (lookup id s.active_alerts)) [
      | inl none_active ↦
          ground (arith, lookup-insert other id (new_alert now rule value labels) s.active_alerts)
      | inr (a, active) ↦ ground (
        arith,
        lookup-insert other id (record a { current_value = value; updated_at = now })
            s.active_alerts,
        lookup-erase other id s.active_alerts,
      )
    ]
