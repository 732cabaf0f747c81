-- ===== src/Agent/Procurement/Limited.antt =====
-- What the agent counts when its workflow has used up its fifty requests.
use revert_x.Prelude.{
  ℕ, suc, ◌+◌, ◌≤◌, ◌≡◌, refl, sym, ap, ◌∙◌, String, Bool, true, false, some, List, [], ◌∷◌, All,
  arith, eq_refl, ◌&&◌,
}
use revert_x.Int.{◌+ℤ◌, +ℤ-zero, int_laws}
use revert_x.Python.{ok}
use revert_x.Dict.{lookup, lookup-insert}
use revert_x.System.{System}
use revert_x.Proxy.Pay.Handler.{pay, rate_limit}
use revert_x.Agent.Catalog.{CatalogEntry, catalog_by_id}
use revert_x.Agent.Planner.{PlannedPayment}
use revert_x.Agent.Planner.Fallback.{total_of}
use revert_x.Agent.Procurement.{
  AgentEnv, post, answered, pay_item, Progress, pay_all, count_in, nothing_paid,
}
use revert_x.Agent.Procurement.Laws.{after_item, pay_all-cons}

-- A payment of the catalog over the limit of requests.
limited_item :
    (env : AgentEnv) (wid : String) (k n : ℕ) (p : PlannedPayment) (e : CatalogEntry) (s : System)
    → lookup wid s.rate_limit ≡ some n
    → 50 ≤ n
    → lookup p.merchant_id catalog_by_id ≡ some e
    → pay_item env wid k p s ≡ (ok (answered true), (rate_limit wid s).1)
unfolding pay_item post pay rate_limit
limited_item env wid k n p e s h b l = ground (arith, h, b, l)

abbrev pub IsKnown : PlannedPayment → Type 0
IsKnown p = (e : CatalogEntry) × (lookup p.merchant_id catalog_by_id ≡ some e)

abbrev pub Counted : List PlannedPayment → Progress → Progress → Type 0
Counted ps acc after =
    (after.total_paid ≡ acc.total_paid +ℤ total_of ps)
    × (after.mandate_exceeded_hit ≡ acc.mandate_exceeded_hit)
    × (after.all_reconciled ≡ acc.all_reconciled)

and_true : (b : Bool) → (b && true) ≡ b
and_true true = refl
and_true false = refl

Counted-cons :
    (p : PlannedPayment) (ps : List PlannedPayment) (acc after : Progress)
    → Counted ps (count_in p true acc) after
    → Counted (p ∷ ps) acc after
Counted-cons p ps acc after (a, b, c) = (a ∙ omega int_laws, b, c ∙ and_true acc.all_reconciled)

module _ (env : AgentEnv) (wid : String) where
  limited_loop :
      (k n : ℕ) (ps : List PlannedPayment) (acc : Progress) (s : System)
      → lookup wid s.rate_limit ≡ some n
      → 50 ≤ n
      → All IsKnown ps
      → (after : Progress) × (t : System) × (pay_all env wid k ps acc s ≡ (ok after, t))
        × Counted ps acc after
        × (t.db ≡ s.db)
        × (t.events ≡ s.events)
  limited_loop k n [] acc s h b l =
      (acc, s, unfold pay_all in refl, (sym (+ℤ-zero acc.total_paid), refl, refl), refl, refl)
  limited_loop k n (p ∷ ps) acc s h b ((e, l), ls) =
      let u = (rate_limit wid s).1 in
      let counted : lookup wid u.rate_limit ≡ some (n + 1) =
        unfold rate_limit in
        ground (arith, h, lookup-insert wid wid (n + 1) s.rate_limit, eq_refl wid) in
      let (after, t, ran, c, same, quiet) =
        limited_loop (suc k) (n + 1) ps (count_in p true acc) u counted (omega arith) ls in
      (
        after,
        t,
        pay_all-cons env wid k p ps acc s
            ∙ ap (after_item env wid k p ps acc) (limited_item env wid k n p e s h b l)
            ∙ ran,
        Counted-cons p ps acc after c,
        same ∙ (unfold rate_limit in refl),
        quiet ∙ (unfold rate_limit in refl),
      )

  -- A workflow that has used up its fifty requests: the agent counts the whole plan as paid, without
  -- a 403 and all reconciled, and the database is as it was.
  pub pay_all-limited :
      (n : ℕ) (plan : List PlannedPayment) (s : System)
      → lookup wid s.rate_limit ≡ some n
      → 50 ≤ n
      → All IsKnown plan
      → (after : Progress) × (t : System) × (pay_all env wid 0 plan nothing_paid s ≡ (ok after, t))
        × Counted plan nothing_paid after
        × (t.db ≡ s.db)
  pay_all-limited n plan s h b l =
      let (after, t, ran, c, same, quiet) = limited_loop 0 n plan nothing_paid s h b l in
      (after, t, ran, c, same)
