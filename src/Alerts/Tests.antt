-- ===== src/Alerts/Tests.antt =====
-- Runs of the alert manager, and its theorems at concrete states.
use siam_siam_ecosystem.Alerts.HistoryBound.{
  IsBounded, reachable-IsBounded, next, start, adds, evaluates,
}
use siam_siam_ecosystem.Common.{none, some, ◌≡◌, refl, length}
use siam_siam_ecosystem.Alerts.Defs.{Config, Manager, new, add_rule, evaluate, last_of}

abbrev errors : Config
errors = record {
  name = none;
  metric = 5;
  threshold = some 100;
  severity = none;
  enabled = none;
  cooldown = none;
}

abbrev watched : Manager
watched = (add_rule 1 errors new)

-- With room for one entry, an alert that fires and is resolved leaves two.
untrimmed :
    length
      (evaluate 20 5 3 0
        (evaluate 10 5 150 0 (record watched { max_history_size = 1 }))).alert_history
    ≡ 2
unfolding evaluate add_rule last_of
untrimmed = refl

reachable-IsBounded_example : IsBounded (evaluate 10 5 150 0 (add_rule 1 errors new))
reachable-IsBounded_example =
    reachable-IsBounded (next (next start (adds 1 errors new)) (evaluates 10 5 150 0 _))
