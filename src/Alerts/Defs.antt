-- ===== src/Alerts/Defs.antt =====
-- `class AlertManager`, for metric values and thresholds that are whole numbers. Identifiers, names,
-- severities and labels are numbers; a call reads the clock once, and a time is its milliseconds
-- where the code keeps an ISO text.
use siam_siam_ecosystem.Common.{
  ℕ, zero, suc, ◌-◌, Bool, true, false, not, Option, none, some, List, [], ◌∷◌, ◌++◌, ltb, leb,
  if◌then◌else◌, length, last_n, ◌==◌,
}
use siam_siam_ecosystem.Dict.{Dict, lookup, insert, erase}

pub record Rule : Type 0 where
  pub name : ℕ
  pub metric : ℕ
  pub threshold : Option ℕ
  pub severity : ℕ
  pub enabled : Bool
  pub cooldown : ℕ

-- the `config` of `addRule`; a property that is not given is `none`
pub record Config : Type 0 where
  pub name : Option ℕ
  pub metric : ℕ
  pub threshold : Option ℕ
  pub severity : Option ℕ
  pub enabled : Option Bool
  pub cooldown : Option ℕ

pub data AlertStatus : Type 0 where
  firing resolved : AlertStatus

pub record Alert : Type 0 where
  pub rule_name : ℕ
  pub severity : ℕ
  pub metric : ℕ
  pub threshold : Option ℕ
  pub current_value : ℕ
  pub labels : ℕ
  pub triggered_at : ℕ
  pub updated_at : ℕ
  pub status : AlertStatus
  pub resolved_at : Option ℕ

pub data Kind : Type 0 where
  triggered cleared : Kind

-- an entry of the history; `cleared` is the type 'resolved'
pub record Entry : Type 0 where
  pub rule_id : ℕ
  pub alert : Alert
  pub kind : Kind
  pub timestamp : ℕ

pub record Manager : Type 0 where
  pub rules : Dict Rule
  pub active_alerts : Dict Alert
  pub alert_history : List Entry
  pub max_history_size : ℕ

-- the constructor
abbrev pub new : Manager
new = record { rules = []; active_alerts = []; alert_history = []; max_history_size = 1000 }

-- the text 'warning'
abbrev pub warning : ℕ
warning = 2

abbrev given {ℓ} : {A : Type ℓ} → A → Option A → A
given d none = d
given d (some a) = a

-- `...config` stands last, so a property that is given replaces its default even when it is falsy.
abbrev pub rule_of : ℕ → Config → Rule
rule_of id c = record {
  name = given id c.name;
  metric = c.metric;
  threshold = c.threshold;
  severity = given warning c.severity;
  enabled = given true c.enabled;
  cooldown = given 300_000 c.cooldown;
}

unfoldable pub add_rule : ℕ → Config → Manager → Manager
add_rule id c s = record s { rules = insert id (rule_of id c) s.rules }

-- `value >= rule.threshold`, which is false if there is none
unfoldable pub reaches : ℕ → Rule → Bool
reaches value rule = elim rule.threshold [ none ↦ false | some t ↦ leb t value ]

-- `alertHistory.filter(a => a.ruleId === ruleId).pop()`
unfoldable pub last_of : ℕ → Option Entry → List Entry → Option Entry
last_of id found [] = found
last_of id found (e ∷ es) = last_of id (if e.rule_id == id then some e else found) es

-- the rule's last entry is younger than its cooldown
unfoldable pub in_cooldown : ℕ → ℕ → Rule → List Entry → Bool
unfolding last_of
in_cooldown now id rule es = elim (last_of id none es) [
  | none ↦ false
  | some e ↦ ltb (now - e.timestamp) rule.cooldown
]

abbrev pub new_alert : ℕ → Rule → ℕ → ℕ → Alert
new_alert now rule value labels = record {
  rule_name = rule.name;
  severity = rule.severity;
  metric = rule.metric;
  threshold = rule.threshold;
  current_value = value;
  labels = labels;
  triggered_at = now;
  updated_at = now;
  status = firing;
  resolved_at = none;
}

abbrev pub trim : ℕ → List Entry → List Entry
trim size es = if ltb size (length es) then last_n size es else es

-- `_triggerAlert`; the log and the notification have no effect on the state
unfoldable pub trigger_alert : ℕ → ℕ → Rule → ℕ → ℕ → Manager → Manager
unfolding in_cooldown
trigger_alert now id rule value labels s = elim (lookup id s.active_alerts) [
  | some a ↦ record s {
    active_alerts =
        insert id (record a { current_value = value; updated_at = now }) s.active_alerts;
  }
  | none ↦
      if in_cooldown now id rule s.alert_history
      then s
      else (let alert = new_alert now rule value labels in
          record s {
            active_alerts = insert id alert s.active_alerts;
            alert_history = trim s.max_history_size (
                s.alert_history
                ++ (record { rule_id = id; alert = alert; kind = triggered; timestamp = now }
                    ∷ []));
          })
]

-- `_resolveAlert`
unfoldable pub resolve_alert : ℕ → ℕ → Manager → Manager
resolve_alert now id s = elim (lookup id s.active_alerts) [
  | none ↦ s
  | some a ↦
      let alert : Alert = record a { status = resolved; resolved_at = some now } in
      record s {
        active_alerts = erase id s.active_alerts;
        alert_history =
            s.alert_history
            ++ (record { rule_id = id; alert = alert; kind = cleared; timestamp = now } ∷ []);
      }
]

-- the body of the loop of `evaluate`
unfoldable pub evaluate_rule : ℕ → ℕ → ℕ → ℕ → ℕ → Rule → Manager → Manager
unfolding trigger_alert resolve_alert reaches
evaluate_rule now metric value labels id rule s =
    if not rule.enabled
    then s
    else if not (rule.metric == metric)
    then s
    else if reaches value rule
    then trigger_alert now id rule value labels s
    else resolve_alert now id s

unfoldable pub evaluate_rules : ℕ → ℕ → ℕ → ℕ → Dict Rule → Manager → Manager
unfolding evaluate_rule
evaluate_rules now metric value labels [] s = s
evaluate_rules now metric value labels ((id, rule) ∷ rules) s =
    evaluate_rules now metric value labels rules (evaluate_rule now metric value labels id rule s)

unfoldable pub evaluate : ℕ → ℕ → ℕ → ℕ → Manager → Manager
unfolding evaluate_rules
evaluate now metric value labels s = evaluate_rules now metric value labels s.rules s

-- `getHistory`; `slice(-0)` is the whole list
unfoldable pub get_history : ℕ → Manager → List Entry
get_history zero s = s.alert_history
get_history (suc n) s = last_n (suc n) s.alert_history
