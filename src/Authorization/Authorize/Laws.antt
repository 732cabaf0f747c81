-- ===== src/Authorization/Authorize/Laws.antt =====
-- What the pipeline of authorization/trace.py decides, and what it writes.
use revert_x.Prelude.{◌≡◌, ◌↔◌, ◌⊎◌, inl, inr, refl, List, [], ◌∷◌, arith, Bool-cases, ap, sym, ◌∙◌}
use revert_x.Int.{ℤ}
use revert_x.Python.{Result, ok, raised}
use revert_x.Db.{Db, WalletRow}
use revert_x.System.{System, Frame}
use revert_x.Authorization.Wallet.{can_spend, get_wallet, record_spend}
use revert_x.Authorization.Policy.{PolicyCheckResult, evaluate, all_passed}
use revert_x.Authorization.Authorize.{
  AuthEnv, AuthRequest, Decision, allowed, blocked, trace_results, balance_gate, policy_gate,
  authorize,
}
use revert_x.Authorization.Authorize.Rules.{
  balance_decision, balance_step, policy_step, decision, IsAuthorized, decision_allowed_iff,
}

-- The wallet that the checks see.
abbrev pub wallet_of : AuthEnv → AuthRequest → Db → WalletRow
wallet_of env req db = (get_wallet env.defaults env.today req.agent_id db).0

abbrev pub loaded : AuthEnv → AuthRequest → Db → Db
loaded env req db = (get_wallet env.defaults env.today req.agent_id db).1

abbrev pub charged : AuthRequest → Result Decision → Db → Db
charged req (ok allowed) db = record_spend req.agent_id req.amount db
charged req _ db = db

-- The result, the database and the rest of the state after the checks.
abbrev Outcome : AuthRequest → Result Decision → Db → System → Result Decision × System → Type 0
Outcome req r db s out = (out.0 ≡ r) × (out.1.db ≡ charged req r db) × Frame s out.1

trace_results_keeps :
    (env : AuthEnv) (req : AuthRequest) (rs : List PolicyCheckResult) (s : System)
    → ((trace_results env req rs s).db ≡ s.db) × Frame s (trace_results env req rs s)
unfolding trace_results
trace_results_keeps env req [] s = (refl, (refl, refl, refl, refl, refl))
trace_results_keeps env req (r ∷ rs) s = trace_results_keeps env req rs _

balance_gate-Outcome :
    (env : AuthEnv) (req : AuthRequest) (s : System) (a : Result ℤ)
    → env.available_balance ≡ a
    → Outcome req (balance_step env req) s.db s (balance_gate env req s)
unfolding balance_gate balance_decision
balance_gate-Outcome env req s (raised e) h = ground arith
balance_gate-Outcome env req s (ok x) h = ground arith

Outcome-from :
    (req : AuthRequest) (r : Result Decision) (db : Db) (s t : System)
    (out : Result Decision × System)
    → t.db ≡ db
    → Frame s t
    → Outcome req r t.db t out
    → Outcome req r db s out
Outcome-from req r db s t out e (a, b, c, d, f) (x, y, (a', b', c', d', f')) =
    (x, y ∙ ap (charged req r) e, (a' ∙ a, b' ∙ b, c' ∙ c, d' ∙ d, f' ∙ f))

policy_gate-Outcome :
    (env : AuthEnv) (req : AuthRequest) (s : System)
    → Outcome req (policy_step env req) s.db s (policy_gate env req s)
unfolding policy_gate
policy_gate-Outcome env req s =
    let rs = evaluate req.amount req.category req.recipient_id env.config in
    let (same, frame) = trace_results_keeps env req rs s in
    elim (Bool-cases (all_passed rs)) [
      | inl y ↦ rw y (
          Outcome-from req (balance_step env req) s.db s (trace_results env req rs s)
            (balance_gate env req (trace_results env req rs s)) same frame
            (balance_gate-Outcome env req (trace_results env req rs s) env.available_balance refl))
      | inr u ↦ rw u (refl, same, frame)
    ]

authorize-Outcome :
    (env : AuthEnv) (req : AuthRequest) (s : System)
    → Outcome req
        (decision env req (wallet_of env req s.db))
        (loaded env req s.db)
        s
        (authorize env req s)
unfolding authorize
authorize-Outcome env req s = elim (Bool-cases (can_spend req.amount (wallet_of env req s.db))) [
  | inl y ↦ rw y (policy_gate-Outcome env req _)
  | inr u ↦ rw u (refl, refl, (refl, refl, refl, refl, refl))
]

charged_cases :
    (req : AuthRequest) (r : Result Decision) (db : Db)
    → (charged req r db ≡ record_spend req.agent_id req.amount db) ⊎ (charged req r db ≡ db)
charged_cases req (ok allowed) db = inl refl
charged_cases req (ok (blocked x)) db = inr refl
charged_cases req (raised e) db = inr refl

-- All that the pipeline writes to the database is the wallet.
pub authorize-written :
    (env : AuthEnv) (req : AuthRequest) (s : System)
    → let t = (authorize env req s).1 in
      (t.db ≡ record_spend req.agent_id req.amount (loaded env req s.db))
      ⊎ (t.db ≡ loaded env req s.db)
authorize-written env req s =
    let (r, d, f) = authorize-Outcome env req s in
    elim (charged_cases req (decision env req (wallet_of env req s.db)) (loaded env req s.db)) [
      | inl h ↦ inl (d ∙ h)
      | inr h ↦ inr (d ∙ h)
    ]

-- A payment is allowed exactly if it satisfies every rule; the allowed amount is then added to what
-- the agent has spent today, and a payment that is not allowed leaves the database as the loading
-- of the wallet left it. Nothing but the database and the published trace changes.
pub authorize_lem :
    (env : AuthEnv) (req : AuthRequest) (s : System)
    → let (r, t) = authorize env req s in
      ((r ≡ ok allowed) ↔ IsAuthorized env req (wallet_of env req s.db))
      × (t.db ≡ charged req r (loaded env req s.db))
      × Frame s t
authorize_lem env req s =
    let (r, d, f) = authorize-Outcome env req s in
    let iff = decision_allowed_iff env req (wallet_of env req s.db) in
    (
      (λ h. iff.0 (sym r ∙ h), λ p. r ∙ iff.1 p),
      d ∙ ap (λ x. charged req x (loaded env req s.db)) (sym r),
      f,
    )
