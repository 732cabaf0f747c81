-- ===== src/Compensation/AnomalyCheck.antt =====
-- `_check_anomalies_background` of compensating_agent/graph.py, the task that a liability report
-- starts and nothing waits for. The answer of the service is a parameter.
use revert_x.Prelude.{String, false, none, some, if◌then◌else◌}
use revert_x.Int.{ℤ}
use revert_x.Python.{other, Result, ok, raised, and_then, Exec, raise, modify, ◌>>◌}
use revert_x.Json.{Json, obj, get, truthy}
use revert_x.Values.{body_of}
use revert_x.System.{System, publish_event, write_compensation_trace}
use revert_x.Compensation.State.{trace}

unfoldable pub check_anomalies_background : Result (ℤ × Json) → String → Exec System (Unit {0})
unfolding publish_event write_compensation_trace
check_anomalies_background answer wid = elim (and_then answer body_of) [
  | raised e ↦ trace wid "anomaly_check" "error"
  | ok body ↦ elim body [
    | obj m ↦
        if (elim (get "is_anomalous" m) [ none ↦ false | some v ↦ truthy v ])
        then modify (publish_event wid "anomaly_detected" m)
          >> trace wid "anomaly_check" "anomaly_flagged"
        else trace wid "anomaly_check" "end"
    | _ ↦ raise other
  ]
]
