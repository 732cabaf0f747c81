-- ===== src/Proxy/Pay/Payout.antt =====
-- The branch of `/pay` for the real payout: create it, find out how it went, and act on that.
use revert_x.Prelude.{
  ℕ, String, Bool, not, Option, none, some, List, [], ◌∷◌, ◌&&◌, ◌==◌, if◌then◌else◌,
}
use revert_x.Int.{ℤ, pos}
use revert_x.Python.{Result, ok, raised, Exec, pure, lift, modify, catch, ◌>>=◌, ◌>>◌}
use revert_x.Json.{Json, int, float, str, Fields}
use revert_x.Db.Payouts.{create_pending_payout}
use revert_x.System.{System, publish_event, fields}
use revert_x.Razorpayx.Client.{
  Classification, processed, failed, non_terminal, PayoutPollResult, poll_payout,
}
use revert_x.Proxy.Pay.Env.{PayEnv, PayRequest, PayoutResponse}

-- What the handler knows of a payout: `merchant_status`, the gateway's status, and the polls made.
pub record PayoutStatus : Type 0 where
  pub merchant_status : String
  pub razorpay_status : String
  pub attempts : ℕ

merchant_status_of : Classification → String
merchant_status_of processed = "settled"
merchant_status_of failed = "failed"
merchant_status_of non_terminal = "pending"

polled_status : PayoutPollResult → PayoutStatus
unfolding merchant_status_of
polled_status r = record {
  merchant_status = merchant_status_of r.classification;
  razorpay_status = r.razorpay_status;
  attempts = r.attempts_made;
}

-- Without an id the payout cannot be polled, and counts as failed.
pub payout_status : PayEnv → String → PayoutResponse → Result PayoutStatus
unfolding polled_status
payout_status env merchant payout =
    if payout.id == ""
    then ok (record { merchant_status = "failed"; razorpay_status = payout.status; attempts = 0 })
    else if (merchant == "merchant_rzp_pending") && env.force_pending
    then (elim (env.get_payout 0) [
      | raised e ↦ raised e
      | ok status ↦
          ok (record { merchant_status = "pending"; razorpay_status = status; attempts = 0 })
    ])
    else (elim (poll_payout env.get_payout env.poll_attempts) [
      | raised e ↦ raised e
      | ok r ↦ ok (polled_status r)
    ])

-- `merchant_data` of a payout.
pub payout_data : String → PayoutResponse → PayoutStatus → Fields
payout_data payee payout st = fields (
    ("status", str st.merchant_status)
    ∷ ("amount", float payout.amount_paise)
    ∷ ("payee", str payee)
    ∷ ("settlement_ref", str payout.id)
    ∷ ("razorpay_status", str st.razorpay_status)
    ∷ ("poll_attempts", int (pos st.attempts))
    ∷ [])

-- mock_merchants/downstream_service.py: only one merchant ever fails.
confirm_fulfillment : Bool → String → Bool
confirm_fulfillment force_fail merchant =
    not ((merchant == "merchant_rzp_downstream_fail") && force_fail)

-- An open payout is kept for the worker, and reported.
unfoldable pub hold_payout :
    PayRequest → String → String → ℤ → PayoutResponse → PayoutStatus → Exec System (Option ℕ)
unfolding create_pending_payout publish_event
hold_payout req payee currency amount payout st s =
    let wid = req.workflow_id in
    let about : List (String × Json) =
      ("merchant_id", str req.merchant_id)
      ∷ ("payee", str payee)
      ∷ ("amount", float amount)
      ∷ ("settlement_ref", str payout.id)
      ∷ ("razorpay_status", str st.razorpay_status)
      ∷ ("poll_attempts", int (pos st.attempts))
      ∷ [] in
    let t = publish_event wid "payout_unconfirmed" (fields about) s in
    let (row, db') =
      create_pending_payout
        (record {
          workflow_id = wid;
          merchant_id = req.merchant_id;
          payee = payee;
          amount = amount;
          currency = currency;
          payout_id = payout.id;
          step_id = "";
          razorpay_status = st.razorpay_status;
        })
        t.db in
    (
      ok (some row),
      publish_event wid "human_escalation_required"
          (fields (
            ("kind", str "payout_unconfirmed")
            ∷ ("merchant_id", str req.merchant_id)
            ∷ ("settlement_ref", str payout.id)
            ∷ ("pending_payout_id", int (pos row))
            ∷ ("status", str "auto_retry_in_progress")
            ∷ []))
          (record t { db = db' }),
    )

-- The payout went through and what it paid for did not happen: a second payout brings the money
-- back, if the mode is on and an account for it is set.
unfoldable pub downstream_failed : PayEnv → PayRequest → ℤ → PayoutResponse → System → System
unfolding publish_event
downstream_failed env req amount payout s =
    let wid = req.workflow_id in
    let t =
      publish_event wid "downstream_fulfillment_failed"
        (fields (
          ("merchant_id", str req.merchant_id)
          ∷ ("amount", float amount)
          ∷ ("settlement_ref", str payout.id)
          ∷ []))
        s in
    if not t.aegis_enabled
    then publish_event wid "aegis_disabled_no_compensation" (fields (("workflow_id", str wid) ∷ []))
        t
    else if not env.self_account_set
    then publish_event wid "compensation_error" (fields (("workflow_id", str wid) ∷ [])) t
    else (elim env.reverse_payout [
      | raised e ↦ publish_event wid "compensation_error" (fields (("workflow_id", str wid) ∷ [])) t
      | ok reversal ↦
          publish_event wid "final_output"
            (fields (
              ("type", str "real_payout_reversed")
              ∷ ("amount", float amount)
              ∷ ("original_settlement_ref", str payout.id)
              ∷ ("reversal_settlement_ref", str reversal.id)
              ∷ ("reversal_status", str reversal.status)
              ∷ []))
            t
    ])

-- What follows from the status; the row of `pending_payouts`, if one was made.
unfoldable pub after_payout :
    PayEnv
    → PayRequest
    → String
    → String
    → ℤ
    → PayoutResponse
    → PayoutStatus
    → Exec System (Option ℕ)
unfolding hold_payout downstream_failed confirm_fulfillment
after_payout env req payee currency amount payout st =
    if st.merchant_status == "pending"
    then hold_payout req payee currency amount payout st
    else if (st.merchant_status == "settled")
        && not (confirm_fulfillment env.downstream_force_fail req.merchant_id)
    then modify (downstream_failed env req amount payout) >> pure none
    else pure none

-- `merchant_data`, `status_code` and the row; any exception is a status of 502.
unfoldable pub pay_by_payout :
    PayEnv → PayRequest → String → String → ℤ → Exec System (Json × ℤ × Option ℕ)
unfolding payout_status payout_data after_payout
pay_by_payout env req payee currency amount =
    catch
      (do
        payout ← lift env.create_payout
        st ← lift (payout_status env req.merchant_id payout)
        row ← after_payout env req payee currency amount payout st
        pure (Json.obj (payout_data payee payout st), pos 200, row))
      (λ e. pure (Json.obj (fields (("error", str "") ∷ [])), pos 502, none))
