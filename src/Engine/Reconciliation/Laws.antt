-- ===== src/Engine/Reconciliation/Laws.antt =====
-- When the reconciliation of engine/reconciliation.py reports a match, and which mismatch it names.
use revert_x.Prelude.{
  String, ◌≡◌, ◌≢◌, ◌↔◌, inl, inr, true, false, some, List, [], ◌∷◌, arith, eq_iff, contains,
  get_or, All, Option-cases,
}
use revert_x.Int.{ℤ, pos, ◌≤ℤ◌}
use revert_x.Json.{Json, int, str, Fields, get, as_int, is_text_iff}
use revert_x.Schemas.{TransactionLogEntry}
use revert_x.Engine.Reconciliation.{is_hard_error_type, is_error_status, reconcile}

-- The texts that name an error of the gateway or of the mandate.
abbrev pub hard_error_types : List String
hard_error_types = "timeout" ∷ "connection_reset" ∷ "network_error" ∷ "mandate_limit_exceeded" ∷ []

-- The gateway reported no such error, and no integer status of 400 or more.
pub record GatewaySucceeded (raw : Fields) : Type 0 where
  pub no_error_type : All (λ t. get "error_type" raw ≢ some (str t)) hard_error_types
  pub low_status :
      (v : Json) (n : ℤ) → get "status_code" raw ≡ some v → as_int v ≡ some n → n ≤ℤ pos 399

-- The payment is the one that was asked for, it is settled, and its reference is new.
pub record IsClean (entry : TransactionLogEntry) (seen : List String) : Type 0 where
  pub gateway : GatewaySucceeded entry.raw_gateway_response
  pub amount : entry.expected.amount ≡ entry.actual.amount
  pub payee : entry.expected.payee ≡ entry.actual.payee
  pub settled : entry.actual.status ≡ "settled"
  pub fresh : contains entry.actual.settlement_ref seen ≡ false

module _ (raw : Fields) where
  no_error_type_lem :
      is_hard_error_type (get_or (get "error_type" raw) (str "")) ≡ false
      → All (λ t. get "error_type" raw ≢ some (str t)) hard_error_types
  unfolding is_hard_error_type
  no_error_type_lem h =
      (λ e. ground arith, (λ e. ground arith, (λ e. ground arith, (λ e. ground arith, tt))))

  no_error_type_back :
      All (λ t. get "error_type" raw ≢ some (str t)) hard_error_types
      → is_hard_error_type (get_or (get "error_type" raw) (str "")) ≡ false
  unfolding is_hard_error_type
  no_error_type_back h = elim (Option-cases (get "error_type" raw)) [
    | inl e ↦ rw e
    | inr (v, e) ↦ rw e (
        ground (
          arith,
          is_text_iff "timeout" v,
          is_text_iff "connection_reset" v,
          is_text_iff "network_error" v,
          is_text_iff "mandate_limit_exceeded" v,
        ))
  ]

  low_status_lem :
      is_error_status (get_or (get "status_code" raw) (int (pos 200))) ≡ false
      → (v : Json) (n : ℤ) → get "status_code" raw ≡ some v
      → as_int v ≡ some n
      → n ≤ℤ pos 399
  unfolding is_error_status
  low_status_lem h v n e f = ground arith

  low_status_back :
      ((v : Json) (n : ℤ) → get "status_code" raw ≡ some v → as_int v ≡ some n → n ≤ℤ pos 399)
      → is_error_status (get_or (get "status_code" raw) (int (pos 200))) ≡ false
  unfolding is_error_status
  low_status_back h = elim (Option-cases (get "status_code" raw)) [
    | inl e ↦ rw e
    | inr (v, e) ↦ elim (Option-cases (as_int v)) [
      | inl f ↦ ground arith
      | inr (n, f) ↦ ground (arith, h v n e f)
    ]
  ]

  gateway_succeeded_iff :
      ((is_hard_error_type (get_or (get "error_type" raw) (str "")) ≡ false)
        × (is_error_status (get_or (get "status_code" raw) (int (pos 200))) ≡ false))
      ↔ GatewaySucceeded raw
  gateway_succeeded_iff = (
    λ h. record { no_error_type = no_error_type_lem h.0; low_status = low_status_lem h.1 },
    λ g. (no_error_type_back g.no_error_type, low_status_back g.low_status),
  )

reconcile_clean :
    (entry : TransactionLogEntry) (seen : List String)
    → IsClean entry seen
    → (reconcile entry seen).matched ≡ true
unfolding reconcile
reconcile_clean entry seen c = ground (
  arith,
  (gateway_succeeded_iff entry.raw_gateway_response).1 c.gateway,
  eq_iff entry.expected.payee entry.actual.payee,
  eq_iff entry.actual.status "settled",
  eq_iff entry.actual.status "pending",
  eq_iff "settled" "pending",
)

reconcile-IsClean_back :
    (entry : TransactionLogEntry) (seen : List String)
    → (reconcile entry seen).matched ≡ true
    → IsClean entry seen
unfolding reconcile
reconcile-IsClean_back entry seen h = record {
  gateway = (gateway_succeeded_iff entry.raw_gateway_response).0 (ground arith, ground arith);
  amount = ground arith;
  payee = ground (arith, eq_iff entry.expected.payee entry.actual.payee);
  settled = ground (arith, eq_iff entry.actual.status "settled");
  fresh = ground arith;
}

-- A match is reported exactly for a clean payment: one that the gateway took without an error, of
-- the expected amount, to the expected payee, settled, and under a reference not seen before.
pub reconcile-matched_iff :
    (entry : TransactionLogEntry) (seen : List String)
    → ((reconcile entry seen).matched ≡ true) ↔ IsClean entry seen
reconcile-matched_iff entry seen = (reconcile-IsClean_back entry seen, reconcile_clean entry seen)
