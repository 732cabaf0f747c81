-- ===== src/Engine/AnomalyDetector.antt =====
-- engine/anomaly_detector.py and the endpoint of engine/anomaly_service.py. The language model is a
-- parameter: whether a key is set, and what it answers; so are `json.loads` and `str`. The prompt is
-- left out, and so is the text of an error.
use revert_x.Prelude.{String, Bool, false, Option, none, some, [], ◌∷◌, ◌==◌, if◌then◌else◌}
use revert_x.Python.{other, Result, ok, raised, and_then}
use revert_x.Json.{Json, bool, str, obj, Fields, get, truthy}
use revert_x.System.{fields}

pub record DetectorEnv : Type 0 where
  pub has_api_key : Bool
  pub generate : Fields → Result (Option String)
  pub loads : String → Result Json
  pub show : Json → String

-- The answers that stand in for the model's.
abbrev pub no_api_key : String
no_api_key = "{\"is_anomalous\": false, \"reason\": \"No API key\"}"

abbrev pub empty_response : String
empty_response = "{\"is_anomalous\": false, \"reason\": \"Empty response\"}"

-- `response.text or '...'`
abbrev text_or_default : Option String → String
text_or_default none = empty_response
text_or_default (some t) = if t == "" then empty_response else t

unfoldable pub sync_anomaly_check : DetectorEnv → Fields → Result String
sync_anomaly_check env steps =
    if env.has_api_key
    then and_then (env.generate steps) (λ t. ok (text_or_default t))
    else ok no_api_key

pub record Flag : Type 0 where
  pub is_anomalous : Bool
  pub reason : String

-- What is read of the JSON; only a dict has `get`.
unfoldable pub read_flag : DetectorEnv → Json → Result Flag
read_flag env (obj m) = ok (record {
  is_anomalous = elim (get "is_anomalous" m) [ none ↦ false | some v ↦ truthy v ];
  reason = elim (get "reason" m) [ none ↦ "" | some v ↦ env.show v ];
})
read_flag env _ = raised other

abbrev pub not_anomalous : String → Flag
not_anomalous reason = record { is_anomalous = false; reason = reason }

-- Any exception is an answer that nothing is anomalous.
unfoldable pub flag_anomalies : DetectorEnv → Fields → Flag
unfolding sync_anomaly_check read_flag
flag_anomalies env steps =
    let read =
      and_then (sync_anomaly_check env steps) (λ t. and_then (env.loads t) (read_flag env)) in
    elim read [ ok flag ↦ flag | raised e ↦ not_anomalous "Detector error" ]

-- The body that the endpoint answers, with a status of 200.
abbrev pub flag_body : Flag → Fields
flag_body f = fields (("is_anomalous", bool f.is_anomalous) ∷ ("reason", str f.reason) ∷ [])
