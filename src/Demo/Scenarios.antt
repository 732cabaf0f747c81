-- ===== src/Demo/Scenarios.antt =====
-- test_harness/generate_scenarios.py: labelled records for the evaluation. The fresh ids are an
-- argument, one family for each kind; the timestamps are left out.
use revert_x.Prelude.{ℕ, zero, suc, ◌+◌, ◌*◌, String, List, [], ◌∷◌, ◌++◌, map}
use revert_x.Int.{ℤ, pos}
use revert_x.Json.{int, str, Fields}
use revert_x.Schemas.{TransactionLogEntry, FaultType, network_fault, agent_fault}
use revert_x.System.{fields}

-- `ground_truth_label`
pub data Label : Type 0 where
  no_mismatch : Label
  fault : FaultType → Label

pub record Labelled : Type 0 where
  pub entry : TransactionLogEntry
  pub label : Label

-- The k-th fresh step id, workflow id and reference; `duplicate` has its own two.
pub record Fresh : Type 0 where
  pub step_id : ℕ → String
  pub workflow_id : ℕ → String
  pub settlement_ref : ℕ → String
  pub shared_workflow : String
  pub duplicate_ref : String

abbrev gateway_ok : Fields
gateway_ok = fields (("status_code", int (pos 200)) ∷ [])

-- What a kind of record has in common; amounts in paise.
abbrev make_entry :
    String → String → String → String → ℤ → ℤ → String → String → String → Fields → Label → Labelled
make_entry step wid ref merchant expected actual payee actual_payee status raw label = record {
  entry = record {
    step_id = step;
    workflow_id = wid;
    action_type = "payment";
    merchant_id = merchant;
    expected = record { amount = expected; currency = "INR"; payee = payee; item = "test item" };
    actual = record {
      amount = actual;
      currency = "INR";
      payee = actual_payee;
      settlement_ref = ref;
      status = status;
    };
    raw_gateway_response = raw;
  };
  label = label;
}

-- `range(a, a + n)`
abbrev range : ℕ → ℕ → List ℕ
range a zero = []
range a (suc n) = a ∷ range (suc a) n

abbrev pub clean : Fresh → ℕ → Labelled
clean f i =
    let amount = pos (1000000 + i * 10000) in
    make_entry (f.step_id i) (f.workflow_id i) (f.settlement_ref i) "merchant_a" amount amount
      "CRM Corp" "CRM Corp" "settled" gateway_ok no_mismatch

abbrev pub amount_off : Fresh → ℕ → Labelled
amount_off f i =
    make_entry (f.step_id (30 + i)) (f.workflow_id (30 + i)) (f.settlement_ref (30 + i))
      "merchant_b" (pos 2000000) (pos (1800000 + i * 10000)) "Grand Hotel" "Grand Hotel" "settled"
      gateway_ok (fault agent_fault)

abbrev pub payee_off : Fresh → ℕ → List String → List Labelled
payee_off f i [] = []
payee_off f i (payee ∷ payees) =
    make_entry (f.step_id (38 + i)) (f.workflow_id (38 + i)) (f.settlement_ref (38 + i))
      "merchant_b" (pos 2000000) (pos 2000000) "Grand Hotel" payee "settled" gateway_ok
      (fault agent_fault)
    ∷ payee_off f (suc i) payees

abbrev pub gateway_off : Fresh → ℕ → List Fields → List Labelled
gateway_off f i [] = []
gateway_off f i (raw ∷ raws) =
    make_entry (f.step_id (43 + i)) (f.workflow_id (43 + i)) (f.settlement_ref (43 + i))
      "merchant_c" (pos 1200000) (pos 1200000) "Domain Registrar" "Domain Registrar" "failed" raw
      (fault network_fault)
    ∷ gateway_off f (suc i) raws

abbrev pub network_errors : List Fields
network_errors =
    fields (("status_code", int (pos 500)) ∷ ("error", str "Internal Server Error") ∷ [])
    ∷ fields (("status_code", int (pos 503)) ∷ ("error", str "Service Unavailable") ∷ [])
    ∷ fields (("status_code", int (pos 502)) ∷ ("error", str "Bad Gateway") ∷ [])
    ∷ fields (
        ("status_code", int (pos 408))
        ∷ ("error_type", str "timeout")
        ∷ ("error", str "Gateway timeout")
        ∷ [])
    ∷ []

-- The first of them is the original.
abbrev pub duplicate : Fresh → Label → ℕ → Labelled
duplicate f label i =
    make_entry (f.step_id (47 + i)) f.shared_workflow f.duplicate_ref "merchant_a" (pos 1000000)
      (pos 1000000) "CRM Corp" "CRM Corp" "settled" gateway_ok label

unfoldable pub generate : Fresh → List Labelled
generate f =
    map (clean f) (range 0 30)
    ++ map (amount_off f) (range 0 8)
    ++ payee_off f 0
        ("Grand Motel" ∷ "Hotel Grand" ∷ "Grand Htl" ∷ "GRAND HOTEL LTD" ∷ "Grand Hotel (GST)" ∷ [])
    ++ gateway_off f 0 network_errors
    ++ duplicate f no_mismatch 0 ∷ map (duplicate f (fault agent_fault)) (range 1 3)
