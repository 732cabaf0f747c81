-- ===== src/Proxy/Pay/Books.antt =====
-- The ledger and the budgets over any sequence of requests to `/pay`.
use revert_x.Prelude.{
  String, ◌≡◌, refl, sym, ap, ◌∙◌, Option, some, List, [], ◌∷◌, ◌++◌, append-nil, ◌==◌, inl, inr,
  if◌then◌else◌,
}
use revert_x.Python.{ok}
use revert_x.Db.{Workflow, StepRow}
use revert_x.Db.Budget.Laws.{budget, spend}
use revert_x.Db.Steps.{step_row}
use revert_x.System.{System}
use revert_x.Proxy.Pay.Env.{PayEnv, PayRequest, HttpResponse}
use revert_x.Proxy.Pay.Handler.{pay}
use revert_x.Proxy.Pay.Finish.{charged_by}
use revert_x.Proxy.Pay.Paid.{Accounted, Charged}
use revert_x.Proxy.Pay.Budget.{pay-Accounted}

-- The states that answered requests lead to, in any order, each with its own answers from outside.
pub data Served (s : System) : System → Type 0 where
  here : Served s s
  next :
      {t u : System}
      → Served s t
      → (env : PayEnv) (req : PayRequest) (r : HttpResponse) → pay env req t ≡ (ok r, u)
      → Served s u

-- What rows of the ledger charge the budget of a workflow with.
abbrev pub spend_all : String → List StepRow → Option Workflow → Option Workflow
spend_all j [] w = w
spend_all j (row ∷ rows) w =
    let entry = row.full_entry in
    spend_all j rows (if entry.workflow_id == j then spend (charged_by entry) w else w)

spend_all-append :
    (j : String) (xs ys : List StepRow) (w : Option Workflow)
    → spend_all j (xs ++ ys) w ≡ spend_all j ys (spend_all j xs w)
spend_all-append j [] ys w = refl
spend_all-append j (x ∷ xs) ys w = spend_all-append j xs ys _

-- The rows that were added since, and that every budget was charged with them and nothing else.
abbrev pub InBooks : System → System → Type 0
InBooks s t =
    (rows : List StepRow) × (t.db.transaction_steps ≡ s.db.transaction_steps ++ rows)
    × ((j : String) → budget j t.db ≡ spend_all j rows (budget j s.db))

append_assoc {ℓ} : {A : Type ℓ} (xs ys zs : List A) → (xs ++ ys) ++ zs ≡ xs ++ (ys ++ zs)
append_assoc [] ys zs = refl
append_assoc (x ∷ xs) ys zs = ap (λ l. x ∷ l) (append_assoc xs ys zs)

-- The same of the budget of one workflow.
abbrev pub InBooksAt : String → System → System → Type 0
InBooksAt j s t =
    (rows : List StepRow) × (t.db.transaction_steps ≡ s.db.transaction_steps ++ rows)
    × (budget j t.db ≡ spend_all j rows (budget j s.db))

module _ (s t u : System) (req : PayRequest) (rows : List StepRow) where
  spent :
      (j : String) (c : Charged req t.db u.db)
      → budget j t.db ≡ spend_all j rows (budget j s.db)
      → budget j u.db
        ≡ spend_all j (rows ++ step_row c.entry (some req.idempotency_key) ∷ []) (budget j s.db)
  spent j c h =
      c.budgets j
      ∙ ap (λ w. if req.workflow_id == j then spend (charged_by c.entry) w else w) h
      ∙ ap
          (λ wid.
            let w = spend_all j rows (budget j s.db) in
            if wid == j then spend (charged_by c.entry) w else w)
          (sym c.same_workflow)
      ∙ sym (
          spend_all-append j rows (step_row c.entry (some req.idempotency_key) ∷ [])
            (budget j s.db))

  added :
      (c : Charged req t.db u.db)
      → t.db.transaction_steps ≡ s.db.transaction_steps ++ rows
      → u.db.transaction_steps
        ≡ s.db.transaction_steps ++ (rows ++ step_row c.entry (some req.idempotency_key) ∷ [])
  added c e =
      let row = step_row c.entry (some req.idempotency_key) in
      c.row ∙ ap (λ x. x ++ row ∷ []) e ∙ append_assoc s.db.transaction_steps rows (row ∷ [])

InBooks-step :
    (s t u : System) (req : PayRequest) → InBooks s t → Accounted req t.db u.db → InBooks s u
InBooks-step s t u req (rows, e, h) (inl c) =
    let row = step_row c.entry (some req.idempotency_key) in
    (rows ++ row ∷ [], added s t u req rows c e, λ j. spent s t u req rows j c (h j))
InBooks-step s t u req (rows, e, h) (inr (p, q)) = (rows, q ∙ e, λ j. p j ∙ h j)

pub InBooksAt-step :
    (j : String) (s t u : System) (req : PayRequest)
    → InBooksAt j s t
    → Accounted req t.db u.db
    → InBooksAt j s u
InBooksAt-step j s t u req (rows, e, h) (inl c) =
    let row = step_row c.entry (some req.idempotency_key) in
    (rows ++ row ∷ [], added s t u req rows c e, spent s t u req rows j c h)
InBooksAt-step j s t u req (rows, e, h) (inr (p, q)) = (rows, q ∙ e, p j ∙ h)

-- After any sequence of answered requests, of any workflows and in any order, the ledger has some
-- rows more, and the budget of each workflow was charged with exactly what its rows among them say.
pub Served-InBooks : {s t : System} → Served s t → InBooks s t
Served-InBooks {s = s} here = ([], sym (append-nil s.db.transaction_steps), λ j. refl)
Served-InBooks {s = s} (next {t = t} {u = u} before env req r e) =
    InBooks-step s t u req (Served-InBooks before) (pay-Accounted env req t r u e)
