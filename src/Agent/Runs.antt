-- ===== src/Agent/Runs.antt =====
-- A run of primary_agent/procurement_agent.py under a given id resets that workflow and declares it
-- anew, before it pays.
use revert_x.Prelude.{
  String, ◌≡◌, refl, ap, ◌∙◌, false, none, some, List, ◌++◌, keep, not, ◌==◌, eq_refl, arith,
}
use revert_x.Int.{ℤ, pos}
use revert_x.Python.{Result, ok, raised, Exec, ◌>>=◌}
use revert_x.Dict.{lookup, erase, lookup-insert, lookup-erase}
use revert_x.Db.{Workflow, StepRow}
use revert_x.Db.Budget.{create_workflow}
use revert_x.Db.Budget.Laws.{budget}
use revert_x.Db.Lifecycle.{reset_workflow}
use revert_x.System.{System, publish_event, on_db}
use revert_x.Proxy.Pay.Books.{InBooks, spend_all}
use revert_x.Proxy.Workflows.{init_workflow}

-- What came before an action that did not raise.
module _ {A B : Type 0} where
  pub bind_parts :
      (m : Exec System A) (k : A → Exec System B) (s u : System) (b : B)
      → (m >>= k) s ≡ (ok b, u)
      → (a : A) × (t : System) × (m s ≡ (ok a, t)) × (k a t ≡ (ok b, u))
  bind_parts m k s u b = go (m s)
    where
      go :
          (q : Result A × System)
          → ((λ (z : System). q) >>= k) s ≡ (ok b, u)
          → (a : A) × (t : System) × (q ≡ (ok a, t)) × (k a t ≡ (ok b, u))
      go (ok a, t) e = (a, t, refl, e)
      go (raised x, t) e = absurd (ground arith)

-- The row of a workflow that was declared with a budget, and of which nothing is spent.
abbrev pub declared : ℤ → Workflow
declared limit = record { budget_limit = limit; budget_used = pos 0; status = "active" }

-- The state in which a run under a given id makes its payments.
abbrev pub ready : String → ℤ → System → System
ready wid limit s = init_workflow wid limit (on_db (reset_workflow wid) s)

module _ (wid : String) (limit : ℤ) (s : System) where
  gone : lookup wid (erase wid s.db.workflows) ≡ none
  gone = ground (arith, lookup-erase wid wid s.db.workflows, eq_refl wid)

  ready_same : budget wid (ready wid limit s).db ≡ some (declared limit)
  unfolding init_workflow create_workflow publish_event reset_workflow
  ready_same =
      rw gone
        (lookup-insert wid wid (declared limit) (erase wid s.db.workflows) ∙ rw (eq_refl wid) refl)

  ready_other : (j : String) → (wid == j) ≡ false → budget j (ready wid limit s).db ≡ budget j s.db
  unfolding init_workflow create_workflow publish_event reset_workflow
  ready_other j n = rw gone (
      lookup-insert wid j (declared limit) (erase wid s.db.workflows)
      ∙ rw n (lookup-erase wid j s.db.workflows ∙ rw n refl))

  ready_steps :
      (ready wid limit s).db.transaction_steps
      ≡ keep (λ r. not (r.full_entry.workflow_id == wid)) s.db.transaction_steps
  unfolding init_workflow create_workflow publish_event reset_workflow
  ready_steps = refl

-- The ledger has lost the rows of the workflow and then gained some; the workflow's budget is a new
-- one, charged with exactly what its rows among the gained ones say, and that of any other workflow
-- is the one before, so charged.
abbrev pub Anew : String → ℤ → System → System → Type 0
Anew wid limit s t =
    (rows : List StepRow) × (t.db.transaction_steps
      ≡ keep (λ r. not (r.full_entry.workflow_id == wid)) s.db.transaction_steps ++ rows)
    × (budget wid t.db ≡ spend_all wid rows (some (declared limit)))
    × ((j : String) → (wid == j) ≡ false → budget j t.db ≡ spend_all j rows (budget j s.db))

pub ready-Anew :
    (wid : String) (limit : ℤ) (s t : System) → InBooks (ready wid limit s) t → Anew wid limit s t
ready-Anew wid limit s t (rows, added, charged) = (
  rows,
  added ∙ ap (λ l. l ++ rows) (ready_steps wid limit s),
  charged wid ∙ ap (spend_all wid rows) (ready_same wid limit s),
  λ j m. charged j ∙ ap (spend_all j rows) (ready_other wid limit s j m),
)
