-- ===== src/Agent/Procurement/Books.antt =====
-- What a planned run leaves in the books.
use revert_x.Prelude.{
  ℕ, zero, suc, String, ◌≡◌, refl, ap, ◌∙◌, sym, subst, Bool, false, Option, none, some, List, [],
  ◌∷◌, ◌==◌, arith, if◌then◌else◌,
}
use revert_x.Int.{ℤ}
use revert_x.Json.{Json, arr, Fields}
use revert_x.Python.{Exc, Result, ok, raised, Exec, pure, lift, modify, ◌>>=◌}
use revert_x.Db.Budget.{create_workflow}
use revert_x.Db.Lifecycle.{reset_workflow}
use revert_x.System.{System, publish_event, on_db}
use revert_x.Proxy.Pay.Books.{InBooks}
use revert_x.Proxy.Workflows.{init_workflow}
use revert_x.Agent.Planner.{
  PlannedPayment, PlannerEnv, validate_and_clamp, nonempty_plan, items, read_plan, ask,
  is_parse_failure, fall_back, attempts, plan_procurement, emit,
}
use revert_x.Agent.Planner.Plan.{Planned, plan_procurement-Planned}
use revert_x.Agent.Runs.{Anew, ready, ready-Anew, bind_parts}
use revert_x.Agent.Procurement.{
  AgentEnv, Progress, pay_all, nothing_paid, finish_run, pay_plan, run_procurement_with_plan,
}
use revert_x.Agent.Procurement.Laws.{pay_all-InBooks}

-- The database is as it was.
abbrev SameDb {ℓ} : {A : Type ℓ} → System → Result A × System → Type 0
SameDb s q = q.1.db ≡ s.db

bind-SameDb :
    {A B : Type 0} (m : Exec System A) (k : A → Exec System B) (s : System)
    → SameDb s (m s)
    → ((a : A) (t : System) → SameDb t (k a t))
    → SameDb s ((m >>= k) s)
bind-SameDb {A = A} m k s h f = go (m s) h
  where
    go : (q : Result A × System) → SameDb s q → SameDb s (((λ (z : System). q) >>= k) s)
    go (ok a, t) e = f a t ∙ e
    go (raised x, t) e = e

emit_db : (wid kind : String) (payload : Fields) (s : System) → (emit wid kind payload s).db ≡ s.db
unfolding emit publish_event
emit_db wid kind payload s = ground arith

nonempty_plan-SameDb :
    (wid : String) (plan : List PlannedPayment) (s : System) → SameDb s (nonempty_plan wid plan s)
nonempty_plan-SameDb wid [] s = refl
nonempty_plan-SameDb wid (p ∷ ps) s = emit_db wid _ _ s

read_plan-SameDb :
    (env : PlannerEnv) (wid : String) (v : Json) (s : System) → SameDb s (read_plan env wid v s)
unfolding read_plan
read_plan-SameDb env wid (arr xs) s =
    bind-SameDb (lift (validate_and_clamp env (items xs))) (nonempty_plan wid) s refl
      (nonempty_plan-SameDb wid)
read_plan-SameDb env wid _ s = refl

ask-SameDb : (env : PlannerEnv) (wid : String) (k : ℕ) (s : System) → SameDb s (ask env wid k s)
unfolding ask
ask-SameDb env wid k s =
    bind-SameDb (lift (env.plan_call k)) (λ text. lift (env.loads text) >>= read_plan env wid) s
      refl
      (λ text t.
        bind-SameDb (lift (env.loads text)) (read_plan env wid) t refl (read_plan-SameDb env wid))

attempts-SameDb :
    (env : PlannerEnv) (wid : String) (budget : ℤ) (left k : ℕ) (last : Option Exc) (s : System)
    → SameDb s (attempts env wid budget left k last s)
unfolding attempts fall_back
attempts-SameDb env wid budget zero k last s = emit_db wid _ _ s
attempts-SameDb env wid budget (suc left) k last s =
    let (r, t) = ask env wid k s in
    elim r
      as (λ x. SameDb s (elim x as (λ _. Result (List PlannedPayment) × System) [
        | ok plan ↦ (ok plan, t)
        | raised e ↦
            attempts env wid budget left (suc k) (if is_parse_failure e then last else some e) t
      ])) [
        | ok plan ↦ ask-SameDb env wid k s
        | raised e ↦
            attempts-SameDb env wid budget left (suc k)
              (if is_parse_failure e then last else some e) t
            ∙ ask-SameDb env wid k s
      ]

plan_procurement-SameDb :
    (env : PlannerEnv) (goal : String) (budget : ℤ) (wid : String) (s : System)
    → SameDb s (plan_procurement env goal budget wid s)
unfolding plan_procurement
plan_procurement-SameDb env goal budget wid s =
    attempts-SameDb env wid budget 2 0 none _ ∙ emit_db wid _ _ s

finish_run_db :
    (wid : String) (plan : List PlannedPayment) (acc : Progress) (s : System)
    → (finish_run wid plan acc s).db ≡ s.db
unfolding finish_run publish_event
finish_run_db wid plan acc s = ground arith

-- The books are about the database.
InBooks-db : (s s' t t' : System) → s.db ≡ s'.db → t.db ≡ t'.db → InBooks s t → InBooks s' t'
InBooks-db s s' t t' d e h =
    subst (λ b. InBooks s' (record t' { db = b })) e
      (subst (λ b. InBooks (record s' { db = b }) (record t' { db = t.db })) d h)

pay_plan-InBooks :
    (env : AgentEnv) (wid : String) (limit : ℤ) (plan : List PlannedPayment) (s t : System)
    → pay_plan env wid limit plan s ≡ (ok tt, t)
    → InBooks (init_workflow wid limit s) t
unfolding pay_plan
pay_plan-InBooks env wid limit plan s t e =
    let start = init_workflow wid limit s in
    let (acc, u, ran, rest) =
      bind_parts (pay_all env wid 0 plan nothing_paid) (λ acc. modify (finish_run wid plan acc))
        start t tt e in
    InBooks-db start start u t refl
      (sym (finish_run_db wid plan acc u) ∙ ap (λ (q : Result (Unit {0}) × System). q.1.db) rest)
      (pay_all-InBooks env wid plan acc start u ran).0

declared_db :
    (wid : String) (limit : ℤ) (s s' : System)
    → s.db ≡ s'.db
    → (init_workflow wid limit s).db ≡ (init_workflow wid limit s').db
unfolding init_workflow publish_event
declared_db wid limit s s' d = ap (create_workflow wid limit) d

abbrev paid_as : AgentEnv → String → ℤ → List PlannedPayment → Exec System (Unit {0})
paid_as env wid limit plan = elim plan as (λ _. Exec System (Unit {0})) [
  | [] ↦ pure tt
  | p ∷ ps ↦ pay_plan env wid limit (p ∷ ps)
]

paid_as-InBooks :
    (env : AgentEnv) (wid : String) (limit : ℤ) (plan : List PlannedPayment) (s t : System)
    → Planned (ok plan)
    → paid_as env wid limit plan s ≡ (ok tt, t)
    → InBooks (init_workflow wid limit s) t
paid_as-InBooks env wid limit [] s t (a, b, c) e = absurd (omega (arith, c))
paid_as-InBooks env wid limit (p ∷ ps) s t h e = pay_plan-InBooks env wid limit (p ∷ ps) s t e

planned_of :
    (env : AgentEnv) (goal : String) (limit : ℤ) (wid fresh_id : String) (s : System)
    → (wid == "") ≡ false
    → run_procurement_with_plan env goal limit (some wid) fresh_id s
      ≡ (plan_procurement env.planner goal limit wid >>= paid_as env wid limit)
          (on_db (reset_workflow wid) s)
unfolding run_procurement_with_plan
planned_of env goal limit wid fresh_id s n =
    ap
      (λ (b : Bool).
        let w : String = if b then fresh_id else wid in
        (plan_procurement env.planner goal limit w >>= paid_as env w limit)
          (on_db (reset_workflow w) s))
      n

-- A planned run that has run to its end under a given id, whatever the language model and the proxy
-- answered: the ledger has lost the rows of that workflow and then gained some; the workflow's budget
-- is a new one with the limit that was asked for, charged with exactly what its rows among the gained
-- ones say, and that of any other workflow is the one before, so charged.
pub run_procurement_with_plan_books :
    (env : AgentEnv) (goal : String) (limit : ℤ) (wid fresh_id : String) (s t : System)
    → (wid == "") ≡ false
    → run_procurement_with_plan env goal limit (some wid) fresh_id s ≡ (ok tt, t)
    → Anew wid limit s t
run_procurement_with_plan_books env goal limit wid fresh_id s t n e =
    let s1 = on_db (reset_workflow wid) s in
    let planning = plan_procurement env.planner goal limit wid in
    let run : (planning >>= paid_as env wid limit) s1 ≡ (ok tt, t) =
      sym (planned_of env goal limit wid fresh_id s n) ∙ e in
    let (plan, u, ran, rest) = bind_parts planning (paid_as env wid limit) s1 t tt run in
    let planned : Planned (ok plan) =
      subst (λ (q : Result (List PlannedPayment) × System). Planned q.0) ran
        (plan_procurement-Planned env.planner goal limit wid s1) in
    let same : u.db ≡ s1.db =
      subst (λ (q : Result (List PlannedPayment) × System). SameDb s1 q) ran
        (plan_procurement-SameDb env.planner goal limit wid s1) in
    ready-Anew wid limit s t (
      InBooks-db (init_workflow wid limit u) (ready wid limit s) t t
        (declared_db wid limit u s1 same) refl
        (paid_as-InBooks env wid limit plan u t planned rest))
