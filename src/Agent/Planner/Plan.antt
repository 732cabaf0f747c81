-- ===== src/Agent/Planner/Plan.antt =====
-- The planner always has a plan, from the language model or without it.
use revert_x.Prelude.{
  ℕ, zero, suc, ◌≤◌, ◌≡◌, refl, subst, String, Option, none, some, List, [], ◌∷◌, All, length,
  arith, if◌then◌else◌,
}
use revert_x.Int.{ℤ, pos}
use revert_x.Python.{Exc, Result, ok, raised, Exec, lift, ◌>>=◌}
use revert_x.Json.{Json, null, bool, int, float, str, arr, obj}
use revert_x.System.{System}
use revert_x.Agent.Catalog.{merchant_catalog, merchant_catalog-Sound}
use revert_x.Agent.Planner.{
  PlannedPayment, PlannerEnv, max_line_items, fallback_from, fallback_plan, validate_and_clamp, ask,
  read_plan, nonempty_plan, attempts, fall_back, plan_procurement, items, is_parse_failure,
}
use revert_x.Agent.Planner.Laws.{IsPlausible, GuardedPlan, validate_and_clamp-Guarded}
use revert_x.Agent.Planner.Fallback.{fallback_from-Guarded}

-- A plan from the model or without it.
abbrev pub Planned : Result (List PlannedPayment) → Type 0
Planned (ok ps) = All IsPlausible ps × (length ps ≤ max_line_items) × (1 ≤ length ps)
Planned (raised e) = ⊥

fall_back-Planned :
    (env : PlannerEnv) (wid : String) (budget : ℤ) (last : Option Exc) (s : System)
    → Planned (fall_back env wid budget last s).0
unfolding fall_back fallback_plan merchant_catalog fallback_from
fall_back-Planned env wid budget last s =
    let (a, b) =
      fallback_from-Guarded budget max_line_items (pos 0) merchant_catalog merchant_catalog-Sound in
    (a, b, omega arith)

-- An attempt that does not raise has a plan.
abbrev Asked : Result (List PlannedPayment) → Type 0
Asked (ok ps) = Planned (ok ps)
Asked (raised e) = Unit

bind-Asked :
    {A : Type 0} (m : Exec System A) (k : A → Exec System (List PlannedPayment)) (s : System)
    → ((a : A) (t : System) → (m s).0 ≡ ok a → Asked (k a t).0)
    → Asked ((m >>= k) s).0
bind-Asked {A = A} m k s h = go (m s) h
  where
    go :
        (q : Result A × System)
        → ((a : A) (t : System) → q.0 ≡ ok a → Asked (k a t).0)
        → Asked (((λ (z : System). q) >>= k) s).0
    go (ok a, t) f = f a t refl
    go (raised e, t) f = tt

nonempty_plan-Asked :
    (wid : String) (ps : List PlannedPayment) (s : System)
    → GuardedPlan max_line_items (ok ps)
    → Asked (nonempty_plan wid ps s).0
nonempty_plan-Asked wid [] s h = tt
nonempty_plan-Asked wid (p ∷ ps) s (h, k) = (h, k, omega arith)

read_plan-Asked :
    (env : PlannerEnv) (wid : String) (v : Json) (s : System) → Asked (read_plan env wid v s).0
unfolding read_plan
read_plan-Asked env wid null s = tt
read_plan-Asked env wid (bool b) s = tt
read_plan-Asked env wid (int n) s = tt
read_plan-Asked env wid (float x) s = tt
read_plan-Asked env wid (str t) s = tt
read_plan-Asked env wid (obj m) s = tt
read_plan-Asked env wid (arr xs) s =
    bind-Asked (lift (validate_and_clamp env (items xs))) (nonempty_plan wid) s (λ plan t e.
      nonempty_plan-Asked wid plan t
        (subst (GuardedPlan max_line_items) e (validate_and_clamp-Guarded env (items xs))))

ask-Asked : (env : PlannerEnv) (wid : String) (k : ℕ) (s : System) → Asked (ask env wid k s).0
unfolding ask
ask-Asked env wid k s =
    bind-Asked (lift (env.plan_call k)) (λ text. lift (env.loads text) >>= read_plan env wid) s
      (λ text t e.
        bind-Asked (lift (env.loads text)) (read_plan env wid) t
          (λ v u e'. read_plan-Asked env wid v u))

attempts-Planned :
    (env : PlannerEnv) (wid : String) (budget : ℤ) (left k : ℕ) (last : Option Exc) (s : System)
    → Planned (attempts env wid budget left k last s).0
unfolding attempts
attempts-Planned env wid budget zero k last s = fall_back-Planned env wid budget last s
attempts-Planned env wid budget (suc left) k last s =
    let (r, t) = ask env wid k s in
    elim r
        as (λ x.
          Asked x
          → Planned
              (elim x as (λ _. Result (List PlannedPayment) × System) [
                | ok plan ↦ (ok plan, t)
                | raised e ↦
                    attempts env wid budget left (suc k)
                      (if is_parse_failure e then last else some e) t
              ]).0) [
                | ok ps ↦ λ h. h
                | raised e ↦ λ h.
                    attempts-Planned env wid budget left (suc k)
                      (if is_parse_failure e then last else some e) t
              ]
      (ask-Asked env wid k s)

-- Whatever the language model answers or raises, in both attempts, planning ends without an
-- exception and gives one to four payments, each for a merchant of the catalog at half to one and a
-- half times that merchant's usual cost.
pub plan_procurement-Planned :
    (env : PlannerEnv) (goal : String) (budget : ℤ) (wid : String) (s : System)
    → Planned (plan_procurement env goal budget wid s).0
unfolding plan_procurement
plan_procurement-Planned env goal budget wid s = attempts-Planned env wid budget 2 0 none _
