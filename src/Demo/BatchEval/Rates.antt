-- ===== src/Demo/BatchEval/Rates.antt =====
-- The rates of the report.
use revert_x.Prelude.{
  ℕ, suc, ◌+◌, ◌*◌, ◌%◌, ◌≤◌, ◌<◌, ◌≡◌, refl, List, [], length, arith, sym, subst, zero, ap, ◌∙◌,
}
use native.Mathlib.Nat.{div-add-mod, zero-div, zero-mod, mul-div_right, le_of_mul-le-mul_left}
use revert_x.Python.{Result, ok, raised, and_then}
use revert_x.Demo.Scenarios.{Labelled}
use revert_x.Demo.BatchEval.{Tally, half_even, rate, Report, report_of, report, eval_from, no_tally}
use revert_x.Demo.BatchEval.Laws.{AddsUp, eval_from-AddsUp}

-- A quotient at the bound leaves no remainder.
quotient_le : (n d q r : ℕ) → d * q + r ≡ n * 10000 → n ≤ d → 0 < d → q ≤ 10000
quotient_le n d q r e h p = le_of_mul-le-mul_left {k = d} (omega (arith, e)) p

full_remainder : (n d q r : ℕ) → d * q + r ≡ n * 10000 → n ≤ d → q ≡ 10000 → r ≡ 0
full_remainder n d q r e h full = omega (arith, subst (λ k. d * k + r ≡ n * 10000) full e)

half_even_le : (d q r : ℕ) → 0 < d → q ≤ 10000 → (q ≡ 10000 → r ≡ 0) → half_even d q r ≤ 10000
unfolding half_even
half_even_le d q r p h full = ground arith

rate_le : (n d : ℕ) → n ≤ d → rate n d ≤ 10000
unfolding rate
rate_le n zero h = omega arith
rate_le n (suc d) h =
    let e = div-add-mod (n * 10000) (suc d) in
    half_even_le (suc d) _ _ (omega arith) (quotient_le n (suc d) _ _ e h (omega arith))
      (full_remainder n (suc d) _ _ e h)

half_even_exact : (d q : ℕ) → 0 < d → half_even d q 0 ≡ q
unfolding half_even
half_even_exact d q p = ground arith

-- Everything out of everything.
rate_self : (d : ℕ) → 0 < d → rate d d ≡ 10000
unfolding rate
rate_self zero h = omega (arith, h)
rate_self (suc d) h =
    let q = mul-div_right 10000 h in
    let r =
      full_remainder (suc d) (suc d) _ _ (div-add-mod (suc d * 10000) (suc d)) (omega arith) q in
    ap (λ x. half_even (suc d) x (suc d * 10000 % suc d)) q
    ∙ ap (half_even (suc d) 10000) r
    ∙ half_even_exact (suc d) 10000 h

rate_none : (d : ℕ) → 0 < d → rate 0 d ≡ 0
unfolding rate
rate_none zero h = refl
rate_none (suc d) h =
    ap (λ x. half_even (suc d) x (0 % suc d)) (zero-div (suc d))
    ∙ ap (half_even (suc d) 0) (zero-mod (suc d))
    ∙ half_even_exact (suc d) 0 h

and_then-ok :
    {A B : Type 0} (c : Result A) (f : A → Result B) (b : B)
    → and_then c f ≡ ok b
    → (a : A) × (c ≡ ok a) × (f a ≡ ok b)
and_then-ok (ok a) f b e = (a, refl, e)
and_then-ok (raised x) f b e = absurd (cc e)

report_ok :
    (rs : List Labelled) (p : Report)
    → report rs ≡ ok p
    → (t : Tally) × (report_of (length rs) t ≡ p) × AddsUp (length rs) t
unfolding report
report_ok rs p e =
    let (t, evaluated, q) =
      and_then-ok (eval_from rs [] no_tally) (λ t. ok (report_of (length rs) t)) p e in
    (t, cc (q), eval_from-AddsUp rs t evaluated)

abbrev pub Bounded : ℕ → Report → Type 0
Bounded n p =
    (p.clean_records + p.mismatch_records ≡ n)
    × (p.match_rate ≤ 10000)
    × (p.mismatch_detection_rate ≤ 10000)
    × (p.fault_classification_accuracy ≤ 10000)
    × (p.false_dispute_rate ≤ 10000)
    × (p.false_disputes_count ≤ p.unresolved_count)

report_of-Bounded : (n : ℕ) (t : Tally) → AddsUp n t → Bounded n (report_of n t)
report_of-Bounded n t (all, a, b, clean, right, listed, disputes, found) = (
  all,
  rate_le t.clean_correct t.clean_count (omega arith),
  rate_le t.mismatch_detected t.mismatch_count (omega arith),
  rate_le t.fault_correct t.mismatch_count (omega arith),
  rate_le t.false_disputes t.mismatch_count (omega arith),
  omega arith,
)

-- The report on any list of labelled records counts each record once, as clean or as a mismatch; its
-- four rates are at most one; and it has at most as many false disputes as unresolved records.
pub report-Bounded : (rs : List Labelled) (p : Report) → report rs ≡ ok p → Bounded (length rs) p
report-Bounded rs p e =
    let (t, q, h) = report_ok rs p e in
    subst (Bounded (length rs)) q (report_of-Bounded (length rs) t h)

abbrev Perfect : Report → Type 0
Perfect p =
    (p.match_rate ≡ 10000)
    × (p.mismatch_detection_rate ≡ 10000)
    × (p.fault_classification_accuracy ≡ 10000)
    × (p.false_dispute_rate ≡ 0)

rate_full : (n d : ℕ) → n ≡ d → 0 < d → rate n d ≡ 10000
rate_full n d e h = ap (λ k. rate k d) e ∙ rate_self d h

report_of-Perfect :
    (n : ℕ) (t : Tally)
    → AddsUp n t
    → length t.unresolved ≡ 0
    → 0 < t.clean_count
    → 0 < t.mismatch_count
    → Perfect (report_of n t)
report_of-Perfect n t (all, a, b, clean, right, listed, disputes, found) none_left cs ms = (
  rate_full t.clean_correct t.clean_count (omega arith) cs,
  rate_full t.mismatch_detected t.mismatch_count (omega arith) ms,
  rate_full t.fault_correct t.mismatch_count (omega arith) ms,
  no_disputes ∙ rate_none t.mismatch_count ms,
)
  where
    no_disputes : rate t.false_disputes t.mismatch_count ≡ rate 0 t.mismatch_count
    no_disputes = ap (λ k. rate k t.mismatch_count) (omega arith)

-- When nothing is unresolved and there are records of both kinds, the report says that every rate
-- is one and that no dispute was false.
report-Perfect :
    (rs : List Labelled) (p : Report)
    → report rs ≡ ok p
    → p.unresolved_count ≡ 0
    → 0 < p.clean_records
    → 0 < p.mismatch_records
    → Perfect p
report-Perfect rs p e none_left cs ms =
    let (t, q, h) = report_ok rs p e in
    subst Perfect q (
      report_of-Perfect (length rs) t h (subst (λ x. x.unresolved_count ≡ 0) (sym q) none_left)
        (subst (λ x. 0 < x.clean_records) (sym q) cs)
        (subst (λ x. 0 < x.mismatch_records) (sym q) ms))
