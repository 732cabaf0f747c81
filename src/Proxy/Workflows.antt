-- ===== src/Proxy/Workflows.antt =====
-- The endpoints of proxy/mcp_proxy.py beside `/pay` that change or report the state: `/init_workflow`,
-- `/aegis_mode`, `/aegis_status`, `/workflow`, and the limit of `/workflows`.
use revert_x.Prelude.{String, Bool, List, [], ◌∷◌, ◌==◌, if◌then◌else◌}
use revert_x.Int.{ℤ, pos, ltb_ℤ}
use revert_x.Json.{float, str}
use revert_x.Schemas.{TransactionLogEntry}
use revert_x.Db.Budget.{create_workflow}
use revert_x.Db.Steps.{get_workflow_steps}
use revert_x.System.{System, publish_event, on_db, fields}

-- `verify_api_key`; any other key is a 401.
abbrev pub verify_api_key : String → String → Bool
verify_api_key proxy_api_key api_key = api_key == proxy_api_key

unfoldable pub init_workflow : String → ℤ → System → System
unfolding create_workflow publish_event
init_workflow wid budget_limit s =
    publish_event wid "workflow_init"
      (fields (("budget_limit", float budget_limit) ∷ ("workflow_id", str wid) ∷ []))
      (on_db (create_workflow wid budget_limit) s)

unfoldable pub set_aegis_mode : Bool → System → System
set_aegis_mode enabled s = record s { aegis_enabled = enabled }

abbrev pub aegis_status : System → Bool
aegis_status s = s.aegis_enabled

unfoldable pub get_workflow : String → System → List TransactionLogEntry
unfolding get_workflow_steps
get_workflow wid s = get_workflow_steps wid s.db

-- `max(1, min(limit, 100))`
unfoldable pub clamp_limit : ℤ → ℤ
clamp_limit limit =
    let low = if ltb_ℤ (pos 100) limit then pos 100 else limit in
    if ltb_ℤ low (pos 1) then pos 1 else low
