-- ===== src/Proxy/Pay/Kept.antt =====
-- The answers that are stored under idempotency keys, while other requests to `/pay` are handled.
use revert_x.Prelude.{
  ℕ, String, ◌≡◌, refl, sym, ap, ◌∙◌, true, false, Option, none, some, arith, ◌==◌, inl, inr,
  contains, Bool-cases, subst, eq_iff,
}
use revert_x.Int.{ℤ}
use revert_x.Json
use revert_x.Json.{Json, str}
use revert_x.Python.{Result, ok, raised}
use revert_x.Dict.{lookup, lookup-insert}
use revert_x.Schemas.{ExpectedPayment, ActualPayment, TransactionLogEntry}
use revert_x.System.{System, publish_event, on_db}
use revert_x.Db.Steps.{get_idempotency_response}
use revert_x.Authorization.Authorize.{Decision, real_payout_merchant_ids}
use revert_x.Authorization.Authorize.Laws.{authorize_lem}
use revert_x.Merchants.Registry.{merchant_port}
use revert_x.Values.{to_float}
use revert_x.Proxy.Pay.Env.{PayEnv, PayRequest, HttpResponse}
use revert_x.Proxy.Pay.Payout.{pay_by_payout}
use revert_x.Proxy.Pay.Settle.{
  Charge, read_charge, settle_budget, actual_payment, record_entry, payment_entry, finish,
}
use revert_x.Proxy.Pay.Handler.{
  expected_payment, auth_request, rate_limit, mandate_exceeded, charge_merchant, pay_merchant,
  reserve, pay_new, replay_or, pay, respond,
}
use revert_x.Proxy.Pay.Finish.{record_entry-Recorded}
use revert_x.Proxy.Pay.Idle.{pay_by_payout-Idle}
use revert_x.Proxy.Pay.Quiet.{pay_by_payout-Quiet}
use revert_x.Proxy.Pay.Paid.{payout_then_finish, charge_then_finish}
use revert_x.Proxy.Pay.Budget.{reservation, attempted, reserve_granted, reserve_refused, checks}

-- The same answer, or none, is stored under the key.
abbrev SameAt : String → System → System → Type 0
SameAt k s t = lookup k t.idem ≡ lookup k s.idem

module _ (env : PayEnv) (req : PayRequest) (k : String)
    (n : (req.idempotency_key == k) ≡ false) where
  record_entry-SameAt :
      (x : TransactionLogEntry) (m : Json) (row : Option ℕ) (s : System)
      → SameAt k s (record_entry req x m row s).1
  record_entry-SameAt x m row s =
      let (r, o, (a, b, c, d, e)) = record_entry-Recorded req x m row s in
      ap (lookup k) d ∙ lookup-insert req.idempotency_key k r.body s.idem ∙ rw n refl

  module _ (expected : ExpectedPayment) where
    settled-SameAt :
        (c : Charge) (m : Json) (code : ℤ) (row : Option ℕ) (s : System) (a : Result ActualPayment)
        → read_charge env expected m code ≡ ok c
        → actual_payment expected.currency c ≡ a
        → SameAt k s (finish env req expected (m, code, row) s).1
    unfolding finish
    settled-SameAt c m code row s (raised x) o h = rw o (rw h refl)
    settled-SameAt c m code row s (ok a) o h = rw o (
        rw h (
          record_entry-SameAt (payment_entry env req expected a c.raw_response) m row
            (on_db (settle_budget req.workflow_id expected.amount c) s)))

    read-SameAt :
        (m : Json) (code : ℤ) (row : Option ℕ) (s : System) (c : Result Charge)
        → read_charge env expected m code ≡ c
        → SameAt k s (finish env req expected (m, code, row) s).1
    read-SameAt m code row s (raised x) o = unfold finish in rw o refl
    read-SameAt m code row s (ok c) o =
        settled-SameAt c m code row s (actual_payment expected.currency c) o refl

    finish-SameAt :
        (m : Json × ℤ × Option ℕ) (s : System) → SameAt k s (finish env req expected m s).1
    finish-SameAt (m, code, row) s = read-SameAt m code row s (read_charge env expected m code) refl

    charged-SameAt :
        (s : System) (port : Option ℕ)
        → merchant_port req.merchant_id ≡ port
        → contains req.merchant_id real_payout_merchant_ids ≡ false
        → SameAt k s (pay_merchant env req expected s).1
    unfolding pay_merchant
    charged-SameAt s none o n = rw n (rw o refl)
    charged-SameAt s (some port) o n =
        subst (λ (p : Result HttpResponse × System). SameAt k s p.1)
          (sym (charge_then_finish env req expected s.db s port o n))
          (finish-SameAt (charge_merchant env expected port) s)

    pay_merchant-SameAt : (s : System) → SameAt k s (pay_merchant env req expected s).1
    pay_merchant-SameAt s =
        let p = pay_by_payout env req expected.payee expected.currency expected.amount s in
        let (m, h, q) =
          pay_by_payout-Quiet env req expected.payee expected.currency expected.amount s in
        elim (Bool-cases (contains req.merchant_id real_payout_merchant_ids)) [
          | inl y ↦
              subst (λ (p : Result HttpResponse × System). SameAt k s p.1)
                (sym (payout_then_finish env req expected s.db s m y h))
                (finish-SameAt m p.1
                  ∙ ap (lookup k) (
                      pay_by_payout-Idle env req expected.payee expected.currency expected.amount
                        s))
          | inr u ↦ charged-SameAt s (merchant_port req.merchant_id) refl u
        ]

    mandate_exceeded-SameAt :
        (used limit : ℤ) (s : System)
        → SameAt k s (mandate_exceeded env req expected used limit s).1
    unfolding mandate_exceeded publish_event
    mandate_exceeded-SameAt used limit s = ground arith

    reserve-SameAt : (s : System) → SameAt k s (reserve env req expected s).1
    reserve-SameAt s =
        let r = reservation env req expected s in
        elim (Bool-cases r.0.0) [
          | inl y ↦
              subst (λ (p : Result HttpResponse × System). SameAt k s p.1)
                (sym (reserve_granted env req expected s y))
                (unfold publish_event in pay_merchant-SameAt (attempted env req expected s))
          | inr u ↦
              subst (λ (p : Result HttpResponse × System). SameAt k s p.1)
                (sym (reserve_refused env req expected s u))
                (mandate_exceeded-SameAt r.0.1 r.0.2 (record s { db = r.1 }))
        ]

  checked-SameAt :
      (amount : ℤ) (s : System) (d : Result Decision)
      → to_float env.parse_float req.amount ≡ ok amount
      → (checks env req amount s).0 ≡ d
      → SameAt k s (pay_new env req s).1
  unfolding pay_new
  checked-SameAt amount s d o h =
      let (iff, db, same) =
        authorize_lem env.auth (auth_request req (expected_payment req amount)) s in
      let u = (checks env req amount s).1 in
      let idem : SameAt k s u = ap (lookup k) same.0 in
      let paid = reserve-SameAt (expected_payment req amount) u in ground arith

  pay_new-SameAt :
      (s : System) (a : Result ℤ)
      → to_float env.parse_float req.amount ≡ a
      → SameAt k s (pay_new env req s).1
  pay_new-SameAt s (raised x) o = unfold pay_new in rw o refl
  pay_new-SameAt s (ok amount) o = checked-SameAt amount s (checks env req amount s).0 o refl

-- What was stored under a key stays, whatever request is handled next and however that ends.
module _ (env : PayEnv) (req : PayRequest) (k : String) (body : Json.Fields) where
  own-Kept :
      (s : System)
      → (req.idempotency_key == k) ≡ true
      → lookup k s.idem ≡ some body
      → lookup k (replay_or env req s).1.idem ≡ some body
  own-Kept s y h =
      let same = (eq_iff req.idempotency_key k).0 y in
      let held : lookup req.idempotency_key s.idem ≡ some body =
        ap (λ x. lookup x s.idem) same ∙ h in
      let there : replay_or env req s ≡ (ok (respond 200 body), s) =
        unfold replay_or in ground (arith, held) in
      subst (λ (p : Result HttpResponse × System). lookup k p.1.idem ≡ some body) (sym there) h

  other-SameAt :
      (s : System) (a b : Option Json.Fields)
      → lookup req.idempotency_key s.idem ≡ a
      → get_idempotency_response req.idempotency_key s.db ≡ b
      → (req.idempotency_key == k) ≡ false
      → SameAt k s (replay_or env req s).1
  unfolding replay_or
  other-SameAt s (some x) b o g n = ground (arith, o)
  other-SameAt s none none o g n =
      let fresh = pay_new-SameAt env req k n s (to_float env.parse_float req.amount) refl in
      ground (arith, o, g, fresh)
  other-SameAt s none (some x) o g n =
      let fresh = pay_new-SameAt env req k n s (to_float env.parse_float req.amount) refl in
      let kept = lookup-insert req.idempotency_key k x s.idem in ground (arith, o, g, fresh, kept)

  replay_or-Kept :
      (s : System) → lookup k s.idem ≡ some body → lookup k (replay_or env req s).1.idem ≡ some body
  replay_or-Kept s h = elim (Bool-cases (req.idempotency_key == k)) [
    | inl y ↦ own-Kept s y h
    | inr n ↦
        other-SameAt s (lookup req.idempotency_key s.idem)
          (get_idempotency_response req.idempotency_key s.db) refl refl n
        ∙ h
  ]

  pub pay-Kept :
      (s : System) → lookup k s.idem ≡ some body → lookup k (pay env req s).1.idem ≡ some body
  unfolding pay rate_limit
  pay-Kept s h = let limited = replay_or-Kept (rate_limit req.workflow_id s).1 h in ground arith
