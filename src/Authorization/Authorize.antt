-- ===== src/Authorization/Authorize.antt =====
-- authorization/trace.py: the pipeline of checks, with the trace that it publishes. The texts of
-- the trace are left out, and so are its times; a step is published with its name, its status and
-- the numbers beside them.
pub mod Laws
pub mod Rules
pub mod Daily
use revert_x.Prelude.{
  ℕ, String, Bool, true, false, not, Option, none, some, List, [], ◌∷◌, ◌++◌, contains, find,
  if◌then◌else◌,
}
use revert_x.Int.{ℤ}
use revert_x.Python.{Exc, Result, ok, raised, Exec, pure, lift, modify, ◌>>=◌, ◌>>◌}
use revert_x.Json.{Json, str, float, Fields, end}
use revert_x.Db.{Db, WalletRow}
use revert_x.Db.Wallets.{WalletDefaults}
use revert_x.System.{System, publish_event, on_db, fields}
use revert_x.Authorization.Wallet.{remaining_today, can_spend, get_wallet, record_spend}
use revert_x.Authorization.Policy.{PolicyConfig, PolicyCheckResult, evaluate, all_passed}
use revert_x.Authorization.RealBalance.{check_real_balance}

abbrev pub real_payout_merchant_ids : List String
real_payout_merchant_ids =
    "merchant_rzp" ∷ "merchant_rzp_pending" ∷ "merchant_rzp_insufficient"
    ∷ "merchant_rzp_downstream_fail" ∷ []

-- The `block_source` of a refusal.
pub data BlockSource : Type 0 where
  wallet policy real_balance : BlockSource

pub data Decision : Type 0 where
  allowed : Decision
  blocked : BlockSource → Decision

-- What the deployment and the world give: the wallet's defaults, the policy, the switch of the
-- demo, the day, the id of the trace, and the gateway's answer on the balance.
pub record AuthEnv : Type 0 where
  pub defaults : WalletDefaults
  pub config : PolicyConfig
  pub force_insufficient : Bool
  pub today : ℕ
  pub trace_id : String
  pub available_balance : Result ℤ

pub record AuthRequest : Type 0 where
  pub workflow_id : String
  pub agent_id : String
  pub amount : ℤ
  pub category : String
  pub recipient_id : String
  pub merchant_id : String

trace_step : AuthEnv → AuthRequest → String → String → List (String × Json) → System → System
unfolding publish_event
trace_step env req step status extra =
    publish_event req.workflow_id "authorization_trace" (
      fields (("trace_id", str env.trace_id) ∷ ("step", str step) ∷ ("status", str status) ∷ extra))

abbrev emit :
    AuthEnv → AuthRequest → String → String → List (String × Json) → Exec System (Unit {0})
emit env req step status extra = modify (trace_step env req step status extra)

abbrev pass_or_fail : Bool → String
pass_or_fail b = if b then "pass" else "fail"

trace_results : AuthEnv → AuthRequest → List PolicyCheckResult → System → System
unfolding trace_step
trace_results env req [] s = s
trace_results env req (r ∷ rs) s =
    trace_results env req rs (trace_step env req r.check (pass_or_fail r.passed) [] s)

wallet_numbers : WalletRow → List (String × Json)
wallet_numbers w =
    ("per_txn_limit", float w.per_txn_limit)
    ∷ ("daily_limit", float w.daily_limit)
    ∷ ("spent_today", float w.spent_today)
    ∷ ("remaining_today", float (remaining_today w))
    ∷ []

unfoldable pub load_wallet : AuthEnv → AuthRequest → Exec System WalletRow
load_wallet env req s =
    let (w, db') = get_wallet env.defaults env.today req.agent_id s.db in
    (ok w, record s { db = db' })

block : AuthEnv → AuthRequest → BlockSource → List (String × Json) → Exec System Decision
unfolding trace_step
block env req source extra = emit env req "final_decision" "block" extra >> pure (blocked source)

allow : AuthEnv → AuthRequest → Exec System Decision
unfolding trace_step
allow env req = do
  emit env req "final_decision" "allow" []
  modify (on_db (record_spend req.agent_id req.amount))
  pure allowed

balance_gate : AuthEnv → AuthRequest → Exec System Decision
unfolding trace_step block allow
balance_gate env req =
    if contains req.merchant_id real_payout_merchant_ids
    then (do
      available ← lift env.available_balance
      let b = check_real_balance env.force_insufficient req.amount req.merchant_id available
      emit env req "check_real_balance" (pass_or_fail b.passes)
          (("available_balance", float b.available) ∷ [])
      if b.passes
          then allow env req
          else block env req real_balance (
              ("block_source", str "real_balance")
              ∷ ("requested_amount", float req.amount)
              ∷ ("available_balance", float b.available)
              ∷ []))
    else (do emit env req "check_real_balance" "skip" []; allow env req)

abbrev failed_check : List PolicyCheckResult → String
failed_check rs = elim (find (λ r. not r.passed) rs) [ none ↦ "" | some r ↦ r.check ]

policy_gate : AuthEnv → AuthRequest → Exec System Decision
unfolding block balance_gate
policy_gate env req = do
  let results = evaluate req.amount req.category req.recipient_id env.config
  modify (trace_results env req results)
  if all_passed results
      then balance_gate env req
      else block env req policy (
          ("block_source", str "policy")
          ∷ ("failed_check", str (failed_check results))
          ∷ ("requested_amount", float req.amount)
          ∷ [])

unfoldable pub authorize : AuthEnv → AuthRequest → Exec System Decision
unfolding trace_step trace_results load_wallet wallet_numbers block policy_gate
authorize env req = do
  emit env req "parse_intent" "pass" []
  w ← load_wallet env req
  emit env req "check_wallet_authority" (pass_or_fail (can_spend req.amount w)) (wallet_numbers w)
  if can_spend req.amount w
      then policy_gate env req
      else block env req wallet (
          ("block_source", str "wallet")
          ∷ ("requested_amount", float req.amount)
          ∷ wallet_numbers w)
