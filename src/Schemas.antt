-- ===== src/Schemas.antt =====
-- proxy/schemas.py: the records that the components exchange. Timestamps, the `rail` default and
-- texts for human readers are left out; amounts are integers, in paise.
use revert_x.Prelude.{String, ℕ, Bool, Option}
use revert_x.Int.{ℤ}
use revert_x.Json.{Fields}

pub record ExpectedPayment : Type 0 where
  pub amount : ℤ
  pub currency : String
  pub payee : String
  pub item : String

-- `status` is whatever the gateway sent, usually "settled", "failed" or "pending".
pub record ActualPayment : Type 0 where
  pub amount : ℤ
  pub currency : String
  pub payee : String
  pub settlement_ref : String
  pub status : String

pub record TransactionLogEntry : Type 0 where
  pub step_id : String
  pub workflow_id : String
  pub action_type : String
  pub merchant_id : String
  pub expected : ExpectedPayment
  pub actual : ActualPayment
  pub raw_gateway_response : Fields

pub data Mismatch : Type 0 where
  hard_error amount_mismatch payee_mismatch pending_unconfirmed duplicate_settlement : Mismatch

pub record ReconciliationResult : Type 0 where
  pub step_id : String
  pub matched : Bool
  pub mismatch_type : Option Mismatch

pub data FaultType : Type 0 where
  network_fault agent_fault : FaultType

-- The strings of `classification_basis`; `reset` is "connection_reset", and
-- `authorized_but_mismatched` is "gateway_returned_4xx_authorized_but_mismatched".
pub data Basis : Type 0 where
  timed_out reset gateway_returned_5xx authorized_but_mismatched no_gateway_error : Basis

pub record FaultClassification : Type 0 where
  pub step_id : String
  pub fault_type : FaultType
  pub classification_basis : Basis

pub record UdirPayload : Type 0 where
  pub original_txn_ref : String
  pub expected_amount : ℤ
  pub actual_amount : ℤ
  pub npci_txn_id : String
  -- the workflow and the step that `evidence_log_ref` names
  pub evidence_workflow : String
  pub evidence_step : String

-- The texts are left out, but for the number of undo steps that `what_happened` names.
pub record LiabilityReport : Type 0 where
  pub workflow_id : String
  pub step_id : String
  pub steps_compensated : ℕ
  pub expected : ExpectedPayment
  pub actual : ActualPayment
  pub financial_impact : ℤ
