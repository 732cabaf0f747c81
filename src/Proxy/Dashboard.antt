-- ===== src/Proxy/Dashboard.antt =====
-- The endpoints of proxy/mcp_proxy.py that the dashboard reads: `/workflows` with the query behind it
-- in db/client.py, `/wallet`, `/session_metrics`, `/razorpay-balance`, `/policy` and the websocket. The table of
-- workflows is in the order in which they were created.
pub mod Laws
use revert_x.Prelude.{
  ℕ, String, Bool, Option, none, some, List, [], ◌∷◌, map, keep, take, reverse, ◌==◌, if◌then◌else◌,
}
use revert_x.Int.{ℤ, pos_part}
use revert_x.Python.{Result, ok, raised}
use revert_x.Dict.{Dict}
use revert_x.Db.{Db, Workflow}
use revert_x.Db.Wallets.{WalletDefaults}
use revert_x.Db.Steps.{get_session_metrics}
use revert_x.Authorization.Policy.{default_policy_config}
use revert_x.Authorization.Wallet.{get_wallet, remaining_today}
use revert_x.Razorpayx.Payouts.{Gateway, get_available_balance}
use revert_x.Proxy.Workflows.{clamp_limit}
use revert_x.System.{System, on_db}

-- `ORDER BY created_at DESC LIMIT limit`
unfoldable pub list_recent_workflows : ℕ → Db → Dict Workflow
list_recent_workflows limit db = take limit (reverse db.workflows)

unfoldable pub list_workflows : ℤ → System → Dict Workflow
unfolding list_recent_workflows clamp_limit
list_workflows limit s = list_recent_workflows (pos_part (clamp_limit limit)) s.db

pub record WalletPanel : Type 0 where
  pub agent_id : String
  pub per_txn_limit : ℤ
  pub daily_limit : ℤ
  pub spent_today : ℤ
  pub remaining_today : ℤ

unfoldable pub get_wallet_state : WalletDefaults → ℕ → String → System → WalletPanel × System
unfolding get_wallet
get_wallet_state defaults today agent_id s =
    let (w, db') = get_wallet defaults today agent_id s.db in
    (
      record {
        agent_id = agent_id;
        per_txn_limit = w.per_txn_limit;
        daily_limit = w.daily_limit;
        spent_today = w.spent_today;
        remaining_today = remaining_today w;
      },
      record s { db = db' },
    )

-- Nothing in place of a balance that cannot be read.
unfoldable pub get_razorpay_balance :
    (String → String → Bool) → (String → Option ℤ) → Gateway → Option ℤ
unfolding get_available_balance
get_razorpay_balance mentions parse gw = elim (get_available_balance mentions parse gw) [
  | ok available ↦ some available
  | raised e ↦ none
]

unfoldable pub session_metrics : System → ℤ × ℕ
session_metrics s = get_session_metrics s.db

pub record PolicyPanel : Type 0 where
  pub allowed_categories : List String
  pub recipient_allowlist : Option (List String)
  pub recipient_denylist : List String
  pub human_approval_threshold : ℤ

-- The rules that payments are checked against, the sets as sorted lists; the order is Python's.
unfoldable pub get_policy : (List String → List String) → PolicyPanel
get_policy sorted =
    let config = default_policy_config in
    record {
      allowed_categories = sorted config.allowed_categories;
      recipient_allowlist = elim config.recipient_allowlist [
        | none ↦ none
        | some names ↦ some (sorted names)
      ];
      recipient_denylist = sorted config.recipient_denylist;
      human_approval_threshold = config.human_approval_threshold;
    }

-- What Redis delivers on the channel of a workflow: confirmations and messages.
pub record Delivery : Type 0 where
  pub kind : String
  pub content : String

-- The socket is closed with a code, or sends texts until the client leaves.
pub data Socket : Type 0 where
  closed : ℕ → Socket
  sent : List String → Socket

unfoldable pub websocket_endpoint : String → Option String → List Delivery → Socket
websocket_endpoint proxy_api_key none deliveries = closed 1008
websocket_endpoint proxy_api_key (some token) deliveries =
    if token == proxy_api_key
    then sent (map (λ m. m.content) (keep (λ m. m.kind == "message") deliveries))
    else closed 1008
