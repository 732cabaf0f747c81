-- ===== src/System.antt =====
-- The state that the processes share: the database, Redis (state_log/redis_client.py), the queue of
-- compensation requests, and the mode switch of the proxy.
use revert_x.Prelude.{ℕ, String, ◌≡◌, Bool, List, [], ◌∷◌, ◌++◌}
use revert_x.Dict.{Dict}
use revert_x.Json.{Json, Fields, end, field}
use revert_x.Schemas.{TransactionLogEntry}
use revert_x.Db.{Db}

-- A message on the channel of a workflow.
pub record Event : Type 0 where
  pub workflow_id : String
  pub event_type : String
  pub payload : Fields

-- The body of a message on the queue `compensation_requests`.
pub record CompensationRequest : Type 0 where
  pub workflow_id : String
  pub failing_step : TransactionLogEntry

-- `idem` and `rate_limit` are the keys with these prefixes; `compensation_trace` holds the lists
-- under `workflow:<id>:compensation_trace`, the newest last.
pub record System : Type 0 where
  pub db : Db
  pub idem : Dict Fields
  pub rate_limit : Dict ℕ
  pub compensation_trace : List (String × Fields)
  pub events : List Event
  pub compensation_requests : List CompensationRequest
  pub aegis_enabled : Bool

abbrev pub fields : List (String × Json) → Fields
fields [] = end
fields ((k, v) ∷ kvs) = field k v (fields kvs)

abbrev pub on_db : (Db → Db) → System → System
on_db f s = record s { db = f s.db }

unfoldable pub publish_event : String → String → Fields → System → System
publish_event wid event_type payload s = record s {
  events =
      s.events ++ (record { workflow_id = wid; event_type = event_type; payload = payload }) ∷ [];
}

unfoldable pub write_compensation_trace : String → Fields → System → System
unfolding publish_event
write_compensation_trace wid entry s =
    publish_event wid "compensation_trace" entry
      (record s { compensation_trace = s.compensation_trace ++ (wid, entry) ∷ [] })

-- The parts of the state that only the proxy and the graph write.
abbrev pub Frame : System → System → Type 0
Frame s t =
    (t.idem ≡ s.idem)
    × (t.rate_limit ≡ s.rate_limit)
    × (t.compensation_trace ≡ s.compensation_trace)
    × (t.compensation_requests ≡ s.compensation_requests)
    × (t.aegis_enabled ≡ s.aegis_enabled)
