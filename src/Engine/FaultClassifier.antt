-- ===== src/Engine/FaultClassifier.antt =====
-- engine/fault_classifier.py: whose fault a failure was, by the raw response alone.
pub mod Laws
use revert_x.Prelude.{
  ℕ, String, Bool, true, false, Option, none, some, List, ◌∷◌, [], ◌&&◌, ◌||◌, ◌==◌, get_or,
  if◌then◌else◌,
}
use revert_x.Int.{ℤ, pos, leb_ℤ, ltb_ℤ, eqb_ℤ}
use revert_x.Python.{Result, ok, raised, type_error}
use revert_x.Json.{Json, str, Fields, get, as_int, is_text, is_hashable}
use revert_x.Schemas.{
  FaultType, network_fault, agent_fault, Basis, timed_out, reset, gateway_returned_5xx,
  authorized_but_mismatched, no_gateway_error, FaultClassification,
}

-- `error_type in _NETWORK_ERROR_TYPES`: the set hashes the value first.
pub is_network_error : Json → Result Bool
is_network_error v =
    if is_hashable v
    then ok (
        is_text "timeout" v
        || is_text "connection_reset" v
        || is_text "connection_refused" v
        || is_text "network_error" v)
    else raised type_error

-- `isinstance(status_code, int) and status_code in _NETWORK_STATUS_CODES`
unfoldable pub is_network_status : Option ℤ → Bool
is_network_status none = false
is_network_status (some n) =
    eqb_ℤ n (pos 500)
    || eqb_ℤ n (pos 501)
    || eqb_ℤ n (pos 502)
    || eqb_ℤ n (pos 503)
    || eqb_ℤ n (pos 504)
    || eqb_ℤ n (pos 507)
    || eqb_ℤ n (pos 508)

-- `isinstance(status_code, int) and low <= status_code < high`
unfoldable pub status_within : ℤ → ℤ → Option ℤ → Bool
status_within low high none = false
status_within low high (some n) = leb_ℤ low n && ltb_ℤ n high

-- `raw_gateway_response.get("status_code")`, where it is an integer.
pub status_code : Fields → Option ℤ
status_code raw = elim (get "status_code" raw) [ none ↦ none | some v ↦ as_int v ]

-- `raw_gateway_response.get("error_type", "")`
abbrev pub error_type : Fields → Json
error_type raw = get_or (get "error_type" raw) (str "")

abbrev verdict : String → FaultType → Basis → FaultClassification
verdict step t b = record { step_id = step; fault_type = t; classification_basis = b }

-- The branches below the first, which cannot raise.
pub classify_status : String → Json → Option ℤ → FaultClassification
classify_status step error status =
    if is_network_status status
    then verdict step network_fault gateway_returned_5xx
    else if is_text "mandate_limit_exceeded" error
    then verdict step agent_fault no_gateway_error
    else if status_within (pos 200) (pos 300) status
    then verdict step agent_fault authorized_but_mismatched
    else if status_within (pos 400) (pos 500) status
    then verdict step agent_fault authorized_but_mismatched
    else verdict step agent_fault no_gateway_error

abbrev network_basis : Json → Basis
network_basis error = if is_text "timeout" error then timed_out else reset

unfoldable pub classify_fault : String → Fields → Result FaultClassification
unfolding is_network_error status_code classify_status
classify_fault step raw = elim (is_network_error (error_type raw)) [
  | raised e ↦ raised e
  | ok true ↦ ok (verdict step network_fault (network_basis (error_type raw)))
  | ok false ↦ ok (classify_status step (error_type raw) (status_code raw))
]
