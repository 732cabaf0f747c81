-- ===== src/Proxy/Dashboard/Laws.antt =====
-- What the dashboard is shown, and what the proxy enforces.
use revert_x.Prelude.{
  ℕ, zero, suc, ◌-◌, ◌≤◌, ◌≡◌, ◌↔◌, refl, String, true, none, List, [], ◌∷◌, ◌++◌, take, reverse,
  arith, length, ap, ◌∙◌, sym,
}
use mathlib.Core.List.{reverse-append}
use revert_x.Int.{ℤ, pos, ◌≤ℤ◌, pos_part}
use revert_x.Dict.{Dict, lookup, insert}
use revert_x.Db.{Workflow}
use revert_x.Db.Budget.{create_workflow}
use revert_x.System.{System, publish_event}
use revert_x.Authorization.Wallet.{get_wallet, can_spend}
use revert_x.Authorization.Wallet.Loaded.{get_wallet_twice}
use revert_x.Authorization.Authorize.{AuthEnv, AuthRequest, authorize, load_wallet}
use revert_x.Proxy.Workflows.{init_workflow, clamp_limit}
use revert_x.Proxy.Dashboard.{list_recent_workflows, list_workflows, get_wallet_state}

can_spend_within :
    (amount : ℤ) (env : AuthEnv) (req : AuthRequest) (s : System)
    → let panel = (get_wallet_state env.defaults env.today req.agent_id s).0 in
      (can_spend amount (get_wallet env.defaults env.today req.agent_id s.db).0 ≡ true)
      ↔ ((amount ≤ℤ panel.per_txn_limit) × (amount ≤ℤ panel.remaining_today))
unfolding get_wallet_state can_spend
can_spend_within amount env req s = (λ h. (ground arith, ground arith), λ h. ground arith)

authorize_loaded :
    (env : AuthEnv) (req : AuthRequest) (s : System)
    → authorize env req (record s { db = (get_wallet env.defaults env.today req.agent_id s.db).1 })
      ≡ authorize env req s
unfolding authorize
authorize_loaded env req s =
    rw (get_wallet_twice env.defaults env.today req.agent_id s.db, load_wallet) refl

-- Showing the wallet changes no later authorization, in its decision or in what it writes; and the
-- wallet lets an amount pass exactly if it is at most the limit for one payment and at most the rest
-- of the day that the panel shows.
pub get_wallet_state_lem :
    (env : AuthEnv) (req : AuthRequest) (s : System)
    → let (panel, t) = get_wallet_state env.defaults env.today req.agent_id s in
      (authorize env req t ≡ authorize env req s)
      × ((can_spend req.amount (get_wallet env.defaults env.today req.agent_id s.db).0 ≡ true)
          ↔ ((req.amount ≤ℤ panel.per_txn_limit) × (req.amount ≤ℤ panel.remaining_today)))
unfolding get_wallet_state authorize
get_wallet_state_lem env req s = (authorize_loaded env req s, can_spend_within req.amount env req s)

insert-new :
    {V : Type 0} (k : String) (v : V) (m : Dict V)
    → lookup k m ≡ none
    → insert k v m ≡ m ++ (k, v) ∷ []
insert-new k v [] h = refl
insert-new k v ((j, w) ∷ m) h = ground (arith, insert-new k v m)

take_less : {A : Type 0} (n : ℕ) (xs : List A) → take n (take (suc n) xs) ≡ take n xs
take_less zero xs = refl
take_less (suc n) [] = refl
take_less (suc n) (x ∷ xs) = ap (λ ys. x ∷ ys) (take_less n xs)

clamp_bounds :
    (limit : ℤ) → (1 ≤ pos_part (clamp_limit limit)) × (pos_part (clamp_limit limit) ≤ 100)
unfolding clamp_limit
clamp_bounds limit = (ground arith, ground arith)

length-take_le : {A : Type 0} (n : ℕ) (xs : List A) → length (take n xs) ≤ n
length-take_le zero xs = omega arith
length-take_le (suc n) [] = omega arith
length-take_le (suc n) (x ∷ xs) = omega (arith, length-take_le n xs)

newest :
    {A : Type 0} (n : ℕ) (x : A) (xs : List A)
    → 1 ≤ n
    → take n (x ∷ xs) ≡ x ∷ take (n - 1) (take n xs)
newest zero x xs h = absurd (omega (arith, h))
newest (suc n) x xs h =
    let e : suc n - 1 ≡ n = omega arith in
    ap (λ ys. x ∷ ys) (sym (ap (λ k. take k (take (suc n) xs)) e ∙ take_less n xs))

-- The row of a workflow that has just been declared.
abbrev pub declared : String → ℤ → String × Workflow
declared wid budget_limit =
    (wid, record { budget_limit = budget_limit; budget_used = pos 0; status = "active" })

added :
    (wid : String) (budget_limit : ℤ) (s : System)
    → lookup wid s.db.workflows ≡ none
    → (init_workflow wid budget_limit s).db.workflows
      ≡ s.db.workflows ++ declared wid budget_limit ∷ []
unfolding init_workflow create_workflow publish_event
added wid budget_limit s h = rw h (insert-new wid _ s.db.workflows h)

-- Right after `/init_workflow` with an id that no workflow has, the listing is headed by that workflow
-- with its budget and nothing used, followed by what was listed before, for any limit that is asked
-- for; and a listing has at most 100 entries.
list_workflows-init_workflow :
    (limit : ℤ) (wid : String) (budget_limit : ℤ) (s : System)
    → lookup wid s.db.workflows ≡ none
    → (list_workflows limit (init_workflow wid budget_limit s)
        ≡ declared wid budget_limit
          ∷ take (pos_part (clamp_limit limit) - 1) (list_workflows limit s))
      × (length (list_workflows limit s) ≤ 100)
unfolding list_workflows list_recent_workflows
list_workflows-init_workflow limit wid budget_limit s h =
    let (low, high) = clamp_bounds limit in
    let n = pos_part (clamp_limit limit) in
    (
      ap (λ m. take n (reverse m)) (added wid budget_limit s h)
          ∙ ap (take n) (reverse-append s.db.workflows (declared wid budget_limit ∷ []))
          ∙ newest n (declared wid budget_limit) (reverse s.db.workflows) low,
      omega (arith, length-take_le n (reverse s.db.workflows), high),
    )
