-- ===== src/Engine/FaultClassifier/Laws.antt =====
-- When engine/fault_classifier.py blames the network, and when it raises.
use revert_x.Prelude.{
  String, ◌≡◌, ◌↔◌, ◌⊎◌, refl, inl, inr, Bool, true, false, Option, some, [], ◌∷◌, arith,
  Option-cases, Any,
}
use revert_x.Int.{ℤ, pos}
use revert_x.Python.{ok, raised, type_error}
use revert_x.Json.{Json, str, Fields, get, is_hashable, is_text_iff}
use revert_x.Schemas.{network_fault, FaultClassification}
use revert_x.Engine.FaultClassifier.{
  is_network_error, is_network_status, network_basis, error_type, status_code, classify_status,
  classify_fault,
}

-- What the raw response must show for the network to be blamed: one of four error types, or one of
-- seven status codes.
abbrev pub NetworkEvidence : Fields → Type 0
NetworkEvidence raw =
    Any (λ t. get "error_type" raw ≡ some (str t))
      ("timeout" ∷ "connection_reset" ∷ "connection_refused" ∷ "network_error" ∷ [])
    ⊎ Any (λ n. status_code raw ≡ some (pos n)) (500 ∷ 501 ∷ 502 ∷ 503 ∷ 504 ∷ 507 ∷ 508 ∷ [])

error_type_evidence :
    (raw : Fields) → is_network_error (error_type raw) ≡ ok true → NetworkEvidence raw
unfolding is_network_error
error_type_evidence raw h = elim (Option-cases (get "error_type" raw)) [
  | inl e ↦ ground arith
  | inr (v, e) ↦ ground (
    arith,
    is_text_iff "timeout" v,
    is_text_iff "connection_reset" v,
    is_text_iff "connection_refused" v,
    is_text_iff "network_error" v,
  )
]

status_evidence : (raw : Fields) → is_network_status (status_code raw) ≡ true → NetworkEvidence raw
unfolding is_network_status
status_evidence raw h = ground arith

status_evidence_back :
    (raw : Fields)
    → Any (λ n. status_code raw ≡ some (pos n)) (500 ∷ 501 ∷ 502 ∷ 503 ∷ 504 ∷ 507 ∷ 508 ∷ [])
    → is_network_status (status_code raw) ≡ true
unfolding is_network_status
status_evidence_back raw h = ground arith

error_type_evidence_back :
    (raw : Fields)
    → Any
        (λ t. get "error_type" raw ≡ some (str t))
        ("timeout" ∷ "connection_reset" ∷ "connection_refused" ∷ "network_error" ∷ [])
    → is_network_error (error_type raw) ≡ ok true
unfolding is_network_error
error_type_evidence_back raw h = ground arith

pub record IsHashable (raw : Fields) : Type 0 where
  pub hashable : (v : Json) → get "error_type" raw ≡ some v → is_hashable v ≡ true

is_network_error-ok :
    (raw : Fields) → IsHashable raw → (b : Bool) × (is_network_error (error_type raw) ≡ ok b)
unfolding is_network_error
is_network_error-ok raw h = elim (Option-cases (get "error_type" raw)) [
  | inl e ↦ (false, rw e)
  | inr (v, e) ↦ rw (e, h.hashable v e) (_, refl)
]

classify_status-network_iff :
    (step : String) (v : Json) (n : Option ℤ)
    → ((classify_status step v n).fault_type ≡ network_fault) ↔ (is_network_status n ≡ true)
unfolding classify_status
classify_status-network_iff step v n = (λ h. ground arith, λ h. ground arith)

step-classify_status :
    (step : String) (v : Json) (n : Option ℤ) → (classify_status step v n).step_id ≡ step
unfolding classify_status
step-classify_status step v n = ground arith

evidence_without_error_type :
    (raw : Fields)
    → is_network_error (error_type raw) ≡ ok false
    → NetworkEvidence raw
    → is_network_status (status_code raw) ≡ true
evidence_without_error_type raw h (inl ev) = ground (arith, error_type_evidence_back raw ev)
evidence_without_error_type raw h (inr ev) = status_evidence_back raw ev

abbrev Classified : String → Fields → Type 0
Classified step raw =
    (c : FaultClassification) × (classify_fault step raw ≡ ok c)
    × (c.step_id ≡ step)
    × ((c.fault_type ≡ network_fault) ↔ NetworkEvidence raw)

classify_fault_cases :
    (step : String) (raw : Fields) (b : Bool)
    → is_network_error (error_type raw) ≡ ok b
    → Classified step raw
unfolding classify_fault
classify_fault_cases step raw true e = (
  record {
    step_id = step;
    fault_type = network_fault;
    classification_basis = network_basis (error_type raw);
  },
  ground arith,
  refl,
  (λ _. error_type_evidence raw e, λ _. refl),
)
classify_fault_cases step raw false e = (
  classify_status step (error_type raw) (status_code raw),
  ground arith,
  step-classify_status step (error_type raw) (status_code raw),
  (
    λ n.
        status_evidence raw
          ((classify_status-network_iff step (error_type raw) (status_code raw)).0 n),
    λ ev.
        (classify_status-network_iff step (error_type raw) (status_code raw)).1
          (evidence_without_error_type raw e ev),
  ),
)

-- The classifier blames the network exactly on the listed evidence, and the agent otherwise; it
-- raises only if the error type is a list or a dict.
pub classify_fault_network_iff :
    (step : String) (raw : Fields)
    → IsHashable raw
    → (c : FaultClassification) × (classify_fault step raw ≡ ok c)
      × (c.step_id ≡ step)
      × ((c.fault_type ≡ network_fault) ↔ NetworkEvidence raw)
unfolding classify_fault
classify_fault_network_iff step raw h =
    let (b, e) = is_network_error-ok raw h in classify_fault_cases step raw b e

-- A response with a list or a dict for its error type makes the classifier raise.
classify_fault_raises :
    (step : String) (raw : Fields) (v : Json)
    → get "error_type" raw ≡ some v
    → is_hashable v ≡ false
    → classify_fault step raw ≡ raised type_error
unfolding classify_fault is_network_error
classify_fault_raises step raw v e u = ground arith
