-- ===== src/Proxy/Pay/Replay.antt =====
-- The idempotency key of a request: an answer is stored under it, and given again.
use revert_x.Prelude.{
  ℕ, ◌≡◌, refl, sym, ap, ◌∙◌, false, Option, none, some, arith, eq_refl, ltb, contains, get_or, inl,
  inr, Bool-cases, ◌+◌, String, List, [], ◌∷◌,
}
use revert_x.Int.{ℤ}
use revert_x.Python.{Result, ok, raised}
use revert_x.Json.{Fields}
use revert_x.Dict.{lookup, insert, lookup-insert}
use revert_x.Schemas.{ExpectedPayment}
use revert_x.System.{System}
use revert_x.Authorization.Authorize.{real_payout_merchant_ids}
use revert_x.Merchants.Registry.{merchant_port}
use revert_x.Values.{to_float}
use revert_x.Proxy.Pay.Env.{PayEnv, PayRequest, HttpResponse}
use revert_x.Proxy.Pay.Payout.{pay_by_payout}
use revert_x.Proxy.Pay.Handler.{
  rate_limit, expected_payment, mandate_exceeded, charge_merchant, pay_merchant, reserve, pay_new,
  replay_or, pay,
}
use revert_x.Proxy.Pay.Quiet.{pay_by_payout-Quiet}
use revert_x.Proxy.Pay.Finish.{Finished, finish-Finished}
use revert_x.Proxy.Pay.Budget.{
  reservation, attempted, reserve_granted, reserve_refused, checks, pay_new-checks,
}
use revert_x.Proxy.Pay.Kept.{pay-Kept}
use revert_x.Proxy.Pay.Paid.{payout_then_finish, charge_then_finish}

-- An answer of status 200 is stored under the key of its request.
abbrev Stored : PayRequest → HttpResponse → System → Type 0
Stored req r t = r.status_code ≡ 200 → lookup req.idempotency_key t.idem ≡ some r.body

Finished-Stored :
    (env : PayEnv) (req : PayRequest) (expected : ExpectedPayment) (s : System) (r : HttpResponse)
    (t : System)
    → Finished env req expected s r t
    → Stored req r t
Finished-Stored env req expected s r t f h =
    let (a, b, c, d, e) = f.recorded in
    ap (lookup req.idempotency_key) d
    ∙ lookup-insert req.idempotency_key req.idempotency_key r.body s.idem
    ∙ ground (arith, eq_refl req.idempotency_key)

module _ (env : PayEnv) (req : PayRequest) (expected : ExpectedPayment) where
  paid-Stored :
      (s : System) (r : HttpResponse) (t : System) (port : Option ℕ)
      → merchant_port req.merchant_id ≡ port
      → contains req.merchant_id real_payout_merchant_ids ≡ false
      → pay_merchant env req expected s ≡ (ok r, t)
      → Stored req r t
  unfolding pay_merchant
  paid-Stored s r t none o n f = λ h. absurd (ground arith)
  paid-Stored s r t (some port) o n f = Finished-Stored env req expected s r t (
      finish-Finished env req expected (charge_merchant env expected port) s r t
        (sym (charge_then_finish env req expected s.db s port o n) ∙ f))

  pay_merchant-Stored :
      (s : System) (r : HttpResponse) (t : System)
      → pay_merchant env req expected s ≡ (ok r, t)
      → Stored req r t
  pay_merchant-Stored s r t f =
      let p = pay_by_payout env req expected.payee expected.currency expected.amount s in
      let (m, e, q) =
        pay_by_payout-Quiet env req expected.payee expected.currency expected.amount s in
      elim (Bool-cases (contains req.merchant_id real_payout_merchant_ids)) [
        | inl y ↦ Finished-Stored env req expected p.1 r t (
            finish-Finished env req expected m p.1 r t
              (sym (payout_then_finish env req expected s.db s m y e) ∙ f))
        | inr n ↦ paid-Stored s r t (merchant_port req.merchant_id) refl n f
      ]

  reserve-Stored :
      (s : System) (r : HttpResponse) (t : System)
      → reserve env req expected s ≡ (ok r, t)
      → Stored req r t
  reserve-Stored s r t f = elim (Bool-cases (reservation env req expected s).0.0) [
    | inl y ↦
        pay_merchant-Stored (attempted env req expected s) r t
          (sym (reserve_granted env req expected s y) ∙ f)
    | inr n ↦
        let g = sym (reserve_refused env req expected s n) ∙ f in
        λ h. absurd (unfold mandate_exceeded in ground arith)
  ]

module _ (env : PayEnv) (req : PayRequest) where
  pay_new-Stored :
      (s : System) (a : Result ℤ)
      → to_float env.parse_float req.amount ≡ a
      → (r : HttpResponse) (t : System) → pay_new env req s ≡ (ok r, t)
      → Stored req r t
  pay_new-Stored s (raised x) e r t f = absurd (unfold pay_new in ground arith)
  pay_new-Stored s (ok amount) e r t f =
      elim (pay_new-checks env req amount s (checks env req amount s).0 e refl r t f) [
        | inl g ↦
            reserve-Stored env req (expected_payment req amount) (checks env req amount s).1 r t g
        | inr (same, code) ↦ λ h. absurd (ground arith)
      ]

  replay_or-Stored :
      (s : System) (r : HttpResponse) (t : System)
      → replay_or env req s ≡ (ok r, t)
      → Stored req r t
  unfolding replay_or
  replay_or-Stored s r t f h =
      let key = req.idempotency_key in
      let fresh = pay_new-Stored s (to_float env.parse_float req.amount) refl r t in
      ground (arith, eq_refl key, lookup-insert key key r.body s.idem)

  pay-Stored :
      (s : System) (r : HttpResponse) (t : System) → pay env req s ≡ (ok r, t) → Stored req r t
  unfolding pay rate_limit
  pay-Stored s r t f h =
      let count = get_or (lookup req.workflow_id s.rate_limit) 0 + 1 in
      let u = record s { rate_limit = insert req.workflow_id count s.rate_limit } in
      let limited = replay_or-Stored u r t in ground arith

-- The number of requests of the workflow is within the limit, with one more.
abbrev pub WithinRate : PayRequest → System → Type 0
WithinRate req s = ltb 50 (get_or (lookup req.workflow_id s.rate_limit) 0 + 1) ≡ false

-- The state after some more requests, handled one after the other, whatever they end with.
abbrev pub after : List (PayEnv × PayRequest) → System → System
after [] s = s
after ((env, req) ∷ rest) s = after rest (pay env req s).1

after-Kept :
    (k : String) (body : Fields) (later : List (PayEnv × PayRequest)) (s : System)
    → lookup k s.idem ≡ some body
    → lookup k (after later s).idem ≡ some body
after-Kept k body [] s h = h
after-Kept k body ((env, req) ∷ rest) s h =
    after-Kept k body rest (pay env req s).1 (pay-Kept env req k body s h)

-- After an answer of status 200, and any number of further requests, of any workflow and with any
-- key, that are handled one after the other and that may be answered or raise: a request with the
-- same key, whatever else it asks for, gets the same answer, and nothing but the count of requests
-- changes. Its workflow must be within the limit on requests.
pub pay-replayed :
    (env env' : PayEnv) (req req' : PayRequest) (s : System) (r : HttpResponse) (t : System)
    (later : List (PayEnv × PayRequest))
    → pay env req s ≡ (ok r, t)
    → r.status_code ≡ 200
    → req'.idempotency_key ≡ req.idempotency_key
    → let u = after later t in
      WithinRate req' u → pay env' req' u ≡ (ok r, (rate_limit req'.workflow_id u).1)
unfolding pay rate_limit replay_or
pay-replayed env env' req req' s r t later f h same within =
    let stored = after-Kept req.idempotency_key r.body later t (pay-Stored env req s r t f h) in
    ground arith
