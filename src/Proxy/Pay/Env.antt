-- ===== src/Proxy/Pay/Env.antt =====
-- The request of `/pay`, the answers that it depends on, and the readings of untyped values.
use revert_x.Prelude.{ℕ, String, Bool, Option}
use revert_x.Int.{ℤ}
use revert_x.Python.{Result}
use revert_x.Json.{Json, Fields}
use revert_x.Authorization.Authorize.{AuthEnv}

-- `expected` of a request: the texts are optional, the amount is any JSON value.
pub record PayRequest : Type 0 where
  pub workflow_id : String
  pub merchant_id : String
  pub idempotency_key : String
  pub amount : Json
  pub payee : Option String
  pub item : Option String
  pub currency : Option String
  pub category : Option String

-- What the payout gateway answers to a new payout.
pub record PayoutResponse : Type 0 where
  pub id : String
  pub amount_paise : ℤ
  pub status : String

-- The switches, the id of the new step, and the answers: of the merchant to `/charge` (its status
-- code and its JSON body), of the gateway to a payout, to each GET of it in turn, and to the
-- reversal. `parse_float` is Python's `float` on a text.
pub record PayEnv : Type 0 where
  pub auth : AuthEnv
  pub step_id : String
  pub force_pending : Bool
  pub downstream_force_fail : Bool
  pub self_account_set : Bool
  pub poll_attempts : ℕ
  pub parse_float : String → Option ℤ
  pub charge : ℕ → ℤ → String → Result (ℤ × Json)
  pub create_payout : Result PayoutResponse
  pub get_payout : ℕ → Result String
  pub reverse_payout : Result PayoutResponse

-- What a handler returns to the client.
pub record HttpResponse : Type 0 where
  pub status_code : ℕ
  pub body : Fields
