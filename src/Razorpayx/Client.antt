-- ===== src/Razorpayx/Client.antt =====
-- razorpayx/client.py. The gateway is a parameter: the answer of the i-th GET of a payout is the
-- `status` that it reports ("" where the answer has none), or an exception. Sleeping is left out.
pub mod Laws
use revert_x.Prelude.{
  ℕ, zero, suc, ◌+◌, String, Bool, true, false, Option, none, some, List, [], ◌∷◌, contains, get_or,
  if◌then◌else◌,
}
use revert_x.Int.{ℤ, pos}
use revert_x.Python.{Exc, Result, ok, raised, runtime_error, type_error, value_error}
use revert_x.Json.{Json, null, bool, int, float, str, arr, obj, Fields, Items, nil, cons, get}

pub data Classification : Type 0 where
  processed failed non_terminal : Classification

pub record PayoutPollResult : Type 0 where
  pub classification : Classification
  pub attempts_made : ℕ
  pub razorpay_status : String

abbrev pub terminal_success : List String
terminal_success = "processed" ∷ []

abbrev pub terminal_failure : List String
terminal_failure = "reversed" ∷ "rejected" ∷ "cancelled" ∷ "failed" ∷ []

abbrev pub non_terminal_statuses : List String
non_terminal_statuses = "queued" ∷ "processing" ∷ []

-- The three sets decide, in this order; a status that is in none of them is not terminal.
pub classify : String → Classification
classify status =
    if contains status terminal_success
    then processed
    else if contains status terminal_failure
    then failed
    else non_terminal

-- `while status in _NON_TERMINAL and polls_done < attempts`, with the attempts that are left.
pub poll_loop : (ℕ → Result String) → ℕ → ℕ → String → Result (String × ℕ)
poll_loop get_payout zero polls_done status = ok (status, polls_done)
poll_loop get_payout (suc left) polls_done status =
    let again : Result (String × ℕ) = elim (get_payout (suc polls_done)) [
      | ok next ↦ poll_loop get_payout left (suc polls_done) next
      | raised e ↦ raised e
    ] in
    if contains status non_terminal_statuses then again else ok (status, polls_done)

poll_result : Result (String × ℕ) → Result PayoutPollResult
unfolding classify
poll_result (raised e) = raised e
poll_result (ok (status, polls)) =
    ok
      (record { classification = classify status; attempts_made = polls; razorpay_status = status })

unfoldable pub poll_payout : (ℕ → Result String) → ℕ → Result PayoutPollResult
unfolding poll_loop poll_result
poll_payout get_payout attempts = elim (get_payout 0) [
  | raised e ↦ raised e
  | ok status ↦ poll_result (poll_loop get_payout attempts 0 status)
]
