-- ===== src/Merchants/Laws.antt =====
-- A charge and the refund of it, the silent break, and the policy that comes at every second call.
use revert_x.Prelude.{
  ℕ, ◌+◌, ◌%◌, ◌≡◌, ◌⊎◌, inl, inr, refl, String, Bool, true, false, none, some, [], ◌∷◌, ◌++◌,
  arith, ltb, eqb, keep, if◌then◌else◌, ◌==◌, eq_refl, Bool-cases,
}
use revert_x.Int.{pos}
use revert_x.Json.{obj, Fields, get}
use revert_x.Dict.{lookup, insert, lookup-insert}
use revert_x.Merchants.Shop.{
  Charge, Charges, ChargeRequest, RefundRequest, Answer, add_charge, paid_back, rejected,
  days_since,
}
use revert_x.Merchants.Crm
use revert_x.Merchants.Hotel
use revert_x.Merchants.Venue
use revert_x.Merchants.Domain
use revert_x.Merchants.Flaky

abbrev pub charge_of : ℕ → ChargeRequest → Charge
charge_of now req = record { amount = req.amount; charged_at = now; workflow_id = req.workflow_id }

module _ (ref : String) (now : ℕ) (req : ChargeRequest) (charges : Charges) where
  stored : lookup ref (add_charge ref now req charges) ≡ some (charge_of now req)
  unfolding add_charge
  stored = ground (arith, lookup-insert ref ref (charge_of now req) charges, eq_refl ref)

  crm_refund :
      (back : RefundRequest)
      → back.settlement_ref ≡ ref
      → Crm.refund back (Crm.charge ref now req charges).1 ≡ paid_back ref req.amount
  unfolding Crm.refund Crm.charge
  crm_refund back e = ground (arith, stored, e)

  flaky_refund :
      (back : RefundRequest)
      → back.settlement_ref ≡ ref
      → Flaky.refund back (Flaky.charge ref now req charges).1 ≡ paid_back ref req.amount
  unfolding Flaky.refund Flaky.charge
  flaky_refund back e = ground (arith, stored, e)

  venue_refund :
      (back : RefundRequest)
      → back.settlement_ref ≡ ref
      → Venue.refund back (Venue.charge ref now req charges).1 ≡ rejected ref
  unfolding Venue.refund Venue.charge
  venue_refund back e = ground (arith, stored, e)

  hotel_refund :
      (back : RefundRequest) (later : ℕ)
      → back.settlement_ref ≡ ref
      → Hotel.refund later back (Hotel.charge ref now req charges).1
        ≡ (if ltb (days_since later now) 7 then rejected ref else paid_back ref req.amount)
  unfolding Hotel.refund Hotel.charge
  hotel_refund back later e = ground (arith, stored, e)

-- What was charged under a reference comes back under it: in full from two merchants, from the
-- hotel unless the charge is younger than seven days, and never from the venue.
charge_refund :
    (ref : String) (now later : ℕ) (req : ChargeRequest) (back : RefundRequest) (charges : Charges)
    → back.settlement_ref ≡ ref
    → (Crm.refund back (Crm.charge ref now req charges).1 ≡ paid_back ref req.amount)
      × (Flaky.refund back (Flaky.charge ref now req charges).1 ≡ paid_back ref req.amount)
      × (Hotel.refund later back (Hotel.charge ref now req charges).1
          ≡ (if ltb (days_since later now) 7 then rejected ref else paid_back ref req.amount))
      × (Venue.refund back (Venue.charge ref now req charges).1 ≡ rejected ref)
charge_refund ref now later req back charges e = (
  crm_refund ref now req charges back e,
  flaky_refund ref now req charges back e,
  hotel_refund ref now req charges back later e,
  venue_refund ref now req charges back e,
)

abbrev pub body_of : Answer → Fields
body_of (code, obj m) = m
body_of (code, _) = Fields.end

keep-insert :
    (p : String × Charge → Bool) (ref : String) (c : Charge) (charges : Charges)
    → lookup ref charges ≡ none
    → keep p (insert ref c charges) ≡ keep p charges ++ (if p (ref, c) then (ref, c) ∷ [] else [])
keep-insert p ref c [] h = ground arith
keep-insert p ref c ((k, d) ∷ charges) h = elim (Bool-cases (k == ref)) [
  | inl same ↦ ground (arith, same, h)
  | inr other ↦
      let absent : lookup ref charges ≡ none = ground (arith, other, h) in
      ground (arith, other, h, keep-insert p ref c charges absent)
]

-- A charge that is made to look like a timeout answers 504 without a reference, and is in the
-- ledger of the merchant under its workflow, after what was there.
pub silent_charge :
    (ref : String) (now : ℕ) (req : ChargeRequest) (charges : Charges)
    → lookup ref charges ≡ none
    → let (answer, after) = Domain.charge true ref now req charges in
      (answer.0 ≡ pos 504)
      × (get "settlement_ref" (body_of answer) ≡ none)
      × (Domain.internal_ledger req.workflow_id after
          ≡ Domain.internal_ledger req.workflow_id charges ++ (ref, charge_of now req) ∷ [])
unfolding Domain.charge Domain.internal_ledger add_charge
silent_charge ref now req charges h = (
  refl,
  refl,
  ground (
    arith,
    keep-insert (λ entry. entry.1.workflow_id == req.workflow_id) ref (charge_of now req) charges h,
    eq_refl req.workflow_id,
  ),
)

-- The policy of the flaky merchant, at once.
abbrev pub Answers : ℕ → Type 0
Answers count = (Flaky.get_policy count).0 ≡ (0, Flaky.policy_answer)

even_next : (n : ℕ) → eqb ((n + 1) % 2) 1 ≡ true → eqb ((n + 1 + 1) % 2) 1 ≡ false
even_next n h = ground arith

-- Of two calls of the flaky merchant's policy in a row, one is answered with the policy at once.
get_policy-recovers : (count : ℕ) → Answers count ⊎ Answers (Flaky.get_policy count).1
unfolding Flaky.get_policy
get_policy-recovers count = elim (Bool-cases (eqb ((count + 1) % 2) 1)) [
  | inl odd ↦ inr (rw (even_next count odd) refl)
  | inr even ↦ inl (rw even refl)
]
