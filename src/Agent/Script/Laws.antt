-- ===== src/Agent/Script/Laws.antt =====
-- What the scripted payments leave in the books.
use revert_x.Prelude.{
  ℕ, String, ◌≡◌, subst, refl, ap, ◌∙◌, sym, Bool, true, false, some, ◌==◌, arith, eqb,
  if◌then◌else◌,
}
use revert_x.Int.{pos}
use revert_x.Python.{json_error, Result, ok, raised, pure, lift, modify, ◌>>◌}
use revert_x.Db.Lifecycle.{reset_workflow}
use revert_x.System.{System, publish_event, on_db}
use revert_x.Proxy.Pay.Env.{PayEnv, PayRequest, HttpResponse}
use revert_x.Proxy.Pay.Handler.{pay}
use revert_x.Proxy.Pay.Books.{Served, here, next, InBooks, Served-InBooks}
use revert_x.Proxy.Workflows.{init_workflow}
use revert_x.Agent.Planner.{PlannedPayment}
use revert_x.Agent.Procurement.{AgentEnv, pay_request, post, complete_payload}
use revert_x.Json.{Fields}
use revert_x.Agent.Runs.{Anew, bind_parts, ready-Anew}
use revert_x.Agent.Script.{
  crm_license, hotel_booking, domain_registration, script_budget, show_answer, buy, overspend,
  run_script, run_procurement,
}

post_answered :
    (env : PayEnv) (req : PayRequest) (resp : HttpResponse) (s t : System)
    → post env req s ≡ (ok resp, t)
    → pay env req s ≡ (ok resp, t)
unfolding post
post_answered env req resp s t = go (pay env req s)
  where
    go :
        (q : Result HttpResponse × System)
        → (let (r, t) = q in
            elim r as (λ _. Result HttpResponse × System) [
              | ok a ↦ (ok a, t)
              | raised e ↦ (raised json_error, t)
            ])
          ≡ (ok resp, t)
        → q ≡ (ok resp, t)
    go (ok a, v) e = e
    go (raised x, v) e = absurd (ground arith)

buy-Served :
    (env : AgentEnv) (wid : String) (k : ℕ) (p : PlannedPayment) (payee : String) (s t u : System)
    (b : Unit {0})
    → Served s t
    → buy env wid k p payee t ≡ (ok b, u)
    → Served s u
unfolding buy
buy-Served env wid k p payee s t u b h e =
    let req = pay_request env wid k p payee in
    let (resp, v, ran, shown) =
      bind_parts (post (env.proxy k) req) (λ resp. lift (show_answer resp.body)) t u b e in
    subst (λ w. Served s w) (ap (λ q. q.1) shown)
      (next h (env.proxy k) req resp (post_answered (env.proxy k) req resp t v ran))

announced_books :
    (wid : String) (c : Bool) (payload : Fields) (s v u : System)
    → InBooks s v
    → (if c then pure tt else modify (publish_event wid "workflow_complete" payload)) v ≡ (ok tt, u)
    → InBooks s u
unfolding publish_event
announced_books wid true payload s v u h e =
    subst (λ (q : Result (Unit {0}) × System). InBooks s q.1) e h
announced_books wid false payload s v u h e =
    subst (λ (q : Result (Unit {0}) × System). InBooks s q.1) e h

overspend-InBooks :
    (env : AgentEnv) (wid : String) (k : ℕ) (p : PlannedPayment) (payee : String) (s t u : System)
    → Served s t
    → overspend env wid k p payee t ≡ (ok tt, u)
    → InBooks s u
unfolding overspend
overspend-InBooks env wid k p payee s t u h e =
    let req = pay_request env wid k p payee in
    let (resp, v, ran, rest) =
      bind_parts (post (env.proxy k) req)
        (λ (resp : HttpResponse).
          if eqb resp.status_code 403
          then pure tt
          else modify (publish_event wid "workflow_complete" (complete_payload (pos 4200000) 3)))
        t u tt e in
    announced_books wid (eqb resp.status_code 403) _ s v u
      (Served-InBooks
        (next h (env.proxy k) req resp (post_answered (env.proxy k) req resp t v ran)))
      rest

-- When the script has run to its end, the ledger has some rows more than when its workflow was
-- declared, and the budget of each workflow was charged with exactly what its rows among them say.
run_script-InBooks :
    (env : AgentEnv) (wid : String) (s t : System)
    → run_script env wid s ≡ (ok tt, t)
    → InBooks (init_workflow wid script_budget s) t
unfolding run_script
run_script-InBooks env wid s t e =
    let s0 = init_workflow wid script_budget s in
    let crm = buy env wid 0 crm_license "CRM Corp" in
    let hotel = buy env wid 1 hotel_booking "Grand Hotel" in
    let domain = overspend env wid 2 domain_registration "Domain Registrar" in
    let (b1, t1, e1, k1) = bind_parts crm (λ _. hotel >> domain) s0 t tt e in
    let (b2, t2, e2, k2) = bind_parts hotel (λ _. domain) t1 t tt k1 in
    let first = buy-Served env wid 0 crm_license "CRM Corp" s0 s0 t1 b1 here e1 in
    overspend-InBooks env wid 2 domain_registration "Domain Registrar" s0 t2 t
      (buy-Served env wid 1 hotel_booking "Grand Hotel" s0 t1 t2 b2 first e2) k2

script_of :
    (env : AgentEnv) (wid fresh_id : String) (s : System)
    → (wid == "") ≡ false
    → run_procurement env (some wid) fresh_id s ≡ run_script env wid (on_db (reset_workflow wid) s)
unfolding run_procurement
script_of env wid fresh_id s n = rw n refl

-- A script that has run to its end under a given id: the ledger has lost the rows of that workflow
-- and then gained some; the workflow's budget is that of a new one, charged with exactly what its
-- rows among the gained ones say, and that of any other workflow is the one before, so charged.
pub run_procurement_books :
    (env : AgentEnv) (wid fresh_id : String) (s t : System)
    → (wid == "") ≡ false
    → run_procurement env (some wid) fresh_id s ≡ (ok tt, t)
    → Anew wid script_budget s t
run_procurement_books env wid fresh_id s t n e =
    let script : run_script env wid (on_db (reset_workflow wid) s) ≡ (ok tt, t) =
      sym (script_of env wid fresh_id s n) ∙ e in
    ready-Anew wid script_budget s t
      (run_script-InBooks env wid (on_db (reset_workflow wid) s) t script)
