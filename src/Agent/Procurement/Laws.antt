-- ===== src/Agent/Procurement/Laws.antt =====
-- What the agent reports, and what its payments leave in the books.
use revert_x.Prelude.{
  ℕ, suc, ◌≡◌, ◌⊎◌, inl, inr, Bool-cases, refl, sym, ◌∙◌, subst, String, Bool, true, false, List,
  [], ◌∷◌, arith,
}
use revert_x.Int.{ℤ, pos, ◌+ℤ◌, int_laws}
use revert_x.Python.{Result, ok, raised, Exec, pure, ◌>>=◌}
use revert_x.System.{System}
use revert_x.Proxy.Pay.Env.{PayRequest, HttpResponse}
use revert_x.Proxy.Pay.Handler.{pay}
use revert_x.Proxy.Pay.Books.{Served, here, next, InBooks, Served-InBooks}
use revert_x.Agent.Planner.{PlannedPayment}
use revert_x.Agent.Planner.Fallback.{total_of}
use revert_x.Agent.Procurement.{
  AgentEnv, payee_of, pay_request, post, Paid, refused, answered, pay_item, Progress, pay_all,
  count_in, nothing_paid,
}

-- How the loop goes on after a payment.
abbrev pub after_item :
    AgentEnv
    → String
    → ℕ
    → PlannedPayment
    → List PlannedPayment
    → Progress
    → Result Paid × System
    → Result Progress × System
after_item env wid k p ps acc (ok refused, t) = (ok (record acc { mandate_exceeded_hit = true }), t)
after_item env wid k p ps acc (ok (answered m), t) = pay_all env wid (suc k) ps (count_in p m acc) t
after_item env wid k p ps acc (raised e, t) = (raised e, t)

pub pay_all-cons :
    (env : AgentEnv) (wid : String) (k : ℕ) (p : PlannedPayment) (ps : List PlannedPayment)
    (acc : Progress) (s : System)
    → pay_all env wid k (p ∷ ps) acc s ≡ after_item env wid k p ps acc (pay_item env wid k p s)
unfolding pay_all
pay_all-cons env wid k p ps acc s = go (pay_item env wid k p s)
  where
    go :
        (q : Result Paid × System)
        → ((λ (z : System). q) >>= (λ r. elim r as (λ _. Exec System Progress) [
          | refused ↦ pure (record acc { mandate_exceeded_hit = true })
          | answered m ↦ pay_all env wid (suc k) ps (count_in p m acc)
        ]))
            s
          ≡ after_item env wid k p ps acc q
    go (ok refused, t) = refl
    go (ok (answered m), t) = refl
    go (raised e, t) = refl

-- The total of a loop that was not cut short by a 403 is that of the plan.
abbrev Totals : List PlannedPayment → Progress → Result Progress → Type 0
Totals ps acc (ok after) =
    after.mandate_exceeded_hit ≡ false → after.total_paid ≡ acc.total_paid +ℤ total_of ps
Totals ps acc (raised e) = Unit

Totals-more :
    (p : PlannedPayment) (ps : List PlannedPayment) (acc : Progress) (m : Bool)
    (r : Result Progress)
    → Totals ps (count_in p m acc) r
    → Totals (p ∷ ps) acc r
Totals-more p ps acc m (ok after) h = λ e. h e ∙ omega int_laws
Totals-more p ps acc m (raised e) h = tt

Totals-after :
    (env : AgentEnv) (wid : String) (k : ℕ) (p : PlannedPayment) (ps : List PlannedPayment)
    (acc : Progress) (q : Result Paid × System)
    → ((m : Bool) (t : System)
        → Totals ps (count_in p m acc) (pay_all env wid (suc k) ps (count_in p m acc) t).0)
    → Totals (p ∷ ps) acc (after_item env wid k p ps acc q).0
Totals-after env wid k p ps acc (ok refused, t) f = λ h. ground arith
Totals-after env wid k p ps acc (ok (answered m), t) f = Totals-more p ps acc m _ (f m t)
Totals-after env wid k p ps acc (raised e, t) f = tt

pay_all-Totals :
    (env : AgentEnv) (wid : String) (k : ℕ) (ps : List PlannedPayment) (acc : Progress) (s : System)
    → Totals ps acc (pay_all env wid k ps acc s).0
pay_all-Totals env wid k [] acc s = unfold pay_all in λ h. omega int_laws
pay_all-Totals env wid k (p ∷ ps) acc s =
    subst (λ (q : Result Progress × System). Totals (p ∷ ps) acc q.0)
      (sym (pay_all-cons env wid k p ps acc s))
      (Totals-after env wid k p ps acc (pay_item env wid k p s)
        (λ m t. pay_all-Totals env wid (suc k) ps (count_in p m acc) t))

-- A payment that does not raise is an answered request.
module _ (env : AgentEnv) (wid : String) (k : ℕ) (p : PlannedPayment) (r : Paid) (t u : System)
    (e : pay_item env wid k p t ≡ (ok r, u)) where
  Posted : Type 0
  Posted = (req : PayRequest) × (resp : HttpResponse) × (pay (env.proxy k) req t ≡ (ok resp, u))

  posted_as :
      (payee : String) (q : Result HttpResponse × System)
      → payee_of p.merchant_id ≡ ok payee
      → pay (env.proxy k) (pay_request env wid k p payee) t ≡ q
      → Posted
  unfolding Posted
  posted_as payee (ok resp, v) f g =
      (pay_request env wid k p payee, resp, unfold pay_item in unfold post in ground arith)
  posted_as payee (raised x, v) f g = absurd (unfold pay_item in unfold post in ground arith)

  posted : (x : Result String) → payee_of p.merchant_id ≡ x → Posted
  posted (ok payee) f = posted_as payee (pay (env.proxy k) (pay_request env wid k p payee) t) f refl
  posted (raised x) f = absurd (unfold pay_item in ground arith)

item_Served :
    (env : AgentEnv) (wid : String) (k : ℕ) (p : PlannedPayment) (r : Paid) (s t u : System)
    → Served s t
    → pay_item env wid k p t ≡ (ok r, u)
    → Served s u
unfolding Posted
item_Served env wid k p r s t u h e =
    let (req, resp, f) = posted env wid k p r t u e (payee_of p.merchant_id) refl in
    next h (env.proxy k) req resp f

Served-after :
    (env : AgentEnv) (wid : String) (k : ℕ) (p : PlannedPayment) (ps : List PlannedPayment)
    (acc after : Progress) (s t u : System) (q : Result Paid × System)
    → pay_item env wid k p t ≡ q
    → Served s t
    → after_item env wid k p ps acc q ≡ (ok after, u)
    → ((m : Bool) (v : System)
        → Served s v
        → pay_all env wid (suc k) ps (count_in p m acc) v ≡ (ok after, u)
        → Served s u)
    → Served s u
Served-after env wid k p ps acc after s t u (ok refused, v) e h g f =
    subst (λ (q : Result Progress × System). Served s q.1) g
      (item_Served env wid k p refused s t v h e)
Served-after env wid k p ps acc after s t u (ok (answered m), v) e h g f =
    f m v (item_Served env wid k p (answered m) s t v h e) g
Served-after env wid k p ps acc after s t u (raised x, v) e h g f = absurd (ground arith)

-- The requests of the loop.
pay_all-Served :
    (env : AgentEnv) (wid : String) (k : ℕ) (ps : List PlannedPayment) (acc after : Progress)
    (s t u : System)
    → Served s t
    → pay_all env wid k ps acc t ≡ (ok after, u)
    → Served s u
pay_all-Served env wid k [] acc after s t u h e =
    unfold pay_all in subst (λ (q : Result Progress × System). Served s q.1) e h
pay_all-Served env wid k (p ∷ ps) acc after s t u h e =
    Served-after env wid k p ps acc after s t u (pay_item env wid k p t) refl h
      (sym (pay_all-cons env wid k p ps acc t) ∙ e)
      (λ m v k' e'. pay_all-Served env wid (suc k) ps (count_in p m acc) after s v u k' e')

zero-+ℤ : (a b : ℤ) → b ≡ pos 0 +ℤ a → b ≡ a
zero-+ℤ a b h = h ∙ omega int_laws

-- When the agent has gone through its plan, every budget was charged with exactly what the ledger's
-- new rows say; and either a 403 ended it, or the total that it counts is that of the whole plan.
pub pay_all-InBooks :
    (env : AgentEnv) (wid : String) (plan : List PlannedPayment) (after : Progress) (s t : System)
    → pay_all env wid 0 plan nothing_paid s ≡ (ok after, t)
    → InBooks s t × ((after.mandate_exceeded_hit ≡ true) ⊎ (after.total_paid ≡ total_of plan))
pay_all-InBooks env wid plan after s t e =
    let total : Totals plan nothing_paid (ok after) =
      subst (λ (q : Result Progress × System). Totals plan nothing_paid q.0) e
        (pay_all-Totals env wid 0 plan nothing_paid s) in
    (
      Served-InBooks (pay_all-Served env wid 0 plan nothing_paid after s s t here e),
      elim (Bool-cases after.mandate_exceeded_hit) [
        | inl hit ↦ inl hit
        | inr on ↦ inr (zero-+ℤ (total_of plan) after.total_paid (total on))
      ],
    )
