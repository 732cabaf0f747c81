-- ===== src/Agent/Planner/Fallback.antt =====
-- The plan without the language model.
use revert_x.Prelude.{
  ℕ, zero, suc, ◌≤◌, ◌≡◌, ◌⊎◌, refl, sym, subst, ◌∙◌, Bool, true, false, List, [], ◌∷◌, length,
  arith, inl, inr, if◌then◌else◌,
}
use revert_x.Int.{ℤ, pos, ◌+ℤ◌, ◌*ℤ◌, ◌≤ℤ◌, ltb_ℤ, +ℤ-zero, int_laws}
use revert_x.Python.{ok}
use revert_x.Agent.Catalog.{CatalogEntry, merchant_catalog, IsListed, Sound}
use revert_x.Agent.Planner.{PlannedPayment, max_line_items, fallback_from, fallback_plan}
use revert_x.Agent.Planner.Laws.{IsPlausible, GuardedPlan}

abbrev pub total_of : List PlannedPayment → ℤ
total_of [] = pos 0
total_of (p ∷ ps) = p.amount +ℤ total_of ps

-- The list without its last element.
abbrev init {ℓ} : {A : Type ℓ} → List A → List A
init [] = []
init (x ∷ []) = []
init (x ∷ y ∷ ys) = x ∷ init (y ∷ ys)

half : (c : ℤ) → pos 0 ≤ℤ c → c *ℤ pos 50 ≤ℤ c *ℤ pos 100
unfolding ◌*ℤ◌
half c k = ground arith

over : (c : ℤ) → pos 0 ≤ℤ c → c *ℤ pos 100 ≤ℤ c *ℤ pos 150
unfolding ◌*ℤ◌
over c k = ground arith

listed-IsPlausible :
    (e : CatalogEntry)
    → IsListed e
    → pos 0 ≤ℤ e.typical_cost
    → IsPlausible
        (record { merchant_id = e.merchant_id; amount = e.typical_cost; item = e.sample_item })
listed-IsPlausible e h k = (e, h, half e.typical_cost k, over e.typical_cost k)

-- The catalog runs out of room or of budget.
abbrev Filled : ℤ → ℕ → ℤ → List PlannedPayment → Type 0
Filled budget left total ps =
    (total +ℤ total_of (init ps) ≤ℤ budget)
    × ((length ps ≡ left) ⊎ (budget +ℤ pos 1 ≤ℤ total +ℤ total_of ps))

ltb_ℤ-succ : (a b : ℤ) → ltb_ℤ a b ≡ true → a +ℤ pos 1 ≤ℤ b
unfolding ◌+ℤ◌
ltb_ℤ-succ a b h = ground arith

-- One payment more: the budget is passed with it, or the rest is filled too.
module _ (budget total total' : ℤ) (left : ℕ) (p : PlannedPayment) (e : total' ≡ total +ℤ p.amount)
    (h : total ≤ℤ budget) where
  reassoc : (x : ℤ) → total' +ℤ x ≡ total +ℤ (p.amount +ℤ x)
  reassoc x = rw e (omega int_laws)

  Filled-last : budget +ℤ pos 1 ≤ℤ total' → Filled budget (suc left) total (p ∷ [])
  Filled-last k = (
    omega int_laws,
    inr (subst (λ z. budget +ℤ pos 1 ≤ℤ z) (sym (+ℤ-zero total') ∙ reassoc (pos 0)) k),
  )

  Filled-more :
      (ps : List PlannedPayment)
      → total' ≤ℤ budget
      → Filled budget left total' ps
      → Filled budget (suc left) total (p ∷ ps)
  Filled-more [] k (a, inl b) = (omega int_laws, inl (omega (arith, b)))
  Filled-more [] k (a, inr b) =
      (omega int_laws, inr (subst (λ z. budget +ℤ pos 1 ≤ℤ z) (reassoc (pos 0)) b))
  Filled-more (q ∷ qs) k (a, inl b) =
      (subst (λ z. z ≤ℤ budget) (reassoc _) a, inl (omega (arith, b)))
  Filled-more (q ∷ qs) k (a, inr b) = (
    subst (λ z. z ≤ℤ budget) (reassoc _) a,
    inr (subst (λ z. budget +ℤ pos 1 ≤ℤ z) (reassoc _) b),
  )

  Filled-cons :
      (ps : List PlannedPayment) (b : Bool)
      → ltb_ℤ budget total' ≡ b
      → (total' ≤ℤ budget → Filled budget left total' ps)
      → Filled budget (suc left) total (p ∷ (if b then [] else ps))
  Filled-cons ps true l k = Filled-last (ltb_ℤ-succ budget total' l)
  Filled-cons ps false l k = Filled-more ps (ground arith) (k (ground arith))

fallback_from-Filled :
    (budget : ℤ) (left : ℕ) (total : ℤ) (es : List CatalogEntry)
    → total ≤ℤ budget
    → left ≤ length es
    → Filled budget left total (fallback_from budget left total es)
unfolding fallback_from
fallback_from-Filled budget zero total [] h k = (omega int_laws, inl refl)
fallback_from-Filled budget zero total (e ∷ es) h k = (omega int_laws, inl refl)
fallback_from-Filled budget (suc left) total [] h k = ground arith
fallback_from-Filled budget (suc left) total (e ∷ es) h k =
    let total' = total +ℤ e.typical_cost in
    Filled-cons budget total total' left _ refl h _ (ltb_ℤ budget total') refl
      (λ g. fallback_from-Filled budget left total' es g (omega arith))

pub fallback_from-Guarded :
    (budget : ℤ) (left : ℕ) (total : ℤ) (es : List CatalogEntry)
    → Sound es
    → GuardedPlan left (ok (fallback_from budget left total es))
unfolding fallback_from
fallback_from-Guarded budget zero total [] h = (tt, omega arith)
fallback_from-Guarded budget zero total (e ∷ es) h = (tt, omega arith)
fallback_from-Guarded budget (suc left) total [] h = (tt, omega arith)
fallback_from-Guarded budget (suc left) total (e ∷ es) ((a, b), h) =
    go (ltb_ℤ budget (total +ℤ e.typical_cost))
      (fallback_from-Guarded budget left (total +ℤ e.typical_cost) es h)
  where
    go :
        (b : Bool)
        → GuardedPlan left (ok (fallback_from budget left (total +ℤ e.typical_cost) es))
        → GuardedPlan (suc left) (
            ok (
              (record {
                merchant_id = e.merchant_id;
                amount = e.typical_cost;
                item = e.sample_item;
              })
              ∷ (if b then [] else fallback_from budget left (total +ℤ e.typical_cost) es)))
    go true (h, k) = ((listed-IsPlausible e a b, tt), omega arith)
    go false (h, k) = ((listed-IsPlausible e a b, h), omega arith)

-- With a budget that is not negative, the plan without the language model fits into the budget but
-- for its last payment, and has four payments or passes the budget with the last one.
fallback_plan-Filled :
    (budget : ℕ) → Filled (pos budget) max_line_items (pos 0) (fallback_plan (pos budget))
unfolding fallback_plan merchant_catalog
fallback_plan-Filled budget =
    fallback_from-Filled (pos budget) max_line_items (pos 0) merchant_catalog (omega arith)
      (omega arith)
