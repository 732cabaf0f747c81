-- ===== src/Compensation/Graph/Verdict.antt =====
-- What a run says in the end: a complaint to the network, or a report on the agent.
use revert_x.Prelude.{
  ℕ, suc, ◌≡◌, ◌↔◌, refl, sym, ap, ◌∙◌, subst, Bool, true, false, none, some, is_some, not, arith,
}
use revert_x.Python.{ok}
use revert_x.Schemas.{FaultClassification, FaultType, network_fault, agent_fault}
use revert_x.Engine.FaultClassifier.Laws.{IsHashable, NetworkEvidence, classify_fault_network_iff}
use revert_x.System.{System}
use revert_x.Compensation.State.{CompensationState, GraphEnv}
use revert_x.Compensation.Verdict.{generate_udir_payload_node, generate_liability_report_node}
use revert_x.Compensation.Graph.{
  NodeName, classify, udir, liability, node, next, run, route_after_classify,
}
use revert_x.Compensation.Graph.Laws.{run-suc}
use revert_x.Compensation.Graph.Finish.{judged, classified, to_udir, to_liability}

-- A run that ends, with a complaint or not, and with a report or not.
abbrev pub Concludes : ℕ → GraphEnv → NodeName → CompensationState → System → Bool → Type 0
Concludes k env n st s complaint =
    (z : CompensationState) × (u : System) × (run k env n st s ≡ (ok (some z), u))
    × (is_some z.udir_payload ≡ complaint)
    × (is_some z.liability_report ≡ not complaint)

abbrev pub is_network : FaultType → Bool
is_network network_fault = true
is_network agent_fault = false

last_node :
    (k : ℕ) (env : GraphEnv) (st : CompensationState) (t : System)
    → st.udir_payload ≡ none
    → st.liability_report ≡ none
    → Concludes (suc k) env udir st t true × Concludes (suc k) env liability st t false
unfolding run node next generate_udir_payload_node generate_liability_report_node
last_node k env st t a b = ((_, _, refl, refl, ap is_some b), (_, _, refl, ap is_some a, refl))

concluded :
    (k : ℕ) (env : GraphEnv) (st : CompensationState) (t : System) (c : FaultClassification)
    (f : FaultType)
    → c.fault_type ≡ f
    → st.udir_payload ≡ none
    → st.liability_report ≡ none
    → Concludes (suc k) env (route_after_classify (judged st c)) (judged st c) t (is_network f)
concluded k env st t c network_fault h a b =
    subst (λ n. Concludes (suc k) env n (judged st c) t true) (sym (to_udir st c h))
      (last_node k env (judged st c) t a b).0
concluded k env st t c agent_fault h a b =
    subst (λ n. Concludes (suc k) env n (judged st c) t false) (sym (to_liability st c h))
      (last_node k env (judged st c) t a b).1

is_network_iff : (f : FaultType) → (is_network f ≡ true) ↔ (f ≡ network_fault)
is_network_iff network_fault = (λ h. refl, λ h. refl)
is_network_iff agent_fault = (λ h. absurd (ground arith), λ h. absurd (ground arith))

-- From the classification on, a run without a complaint or a report so far ends in two nodes, if the
-- error type of the failing step's response is no list or dict: with a complaint to the network and
-- no report if the response shows that the network failed, and with a report on the agent and no
-- complaint if it does not.
pub run-Concludes :
    (k : ℕ) (env : GraphEnv) (st : CompensationState) (s : System)
    → IsHashable st.failing_step.raw_gateway_response
    → st.udir_payload ≡ none
    → st.liability_report ≡ none
    → (complaint : Bool) × Concludes (suc (suc k)) env classify st s complaint
      × ((complaint ≡ true) ↔ NetworkEvidence st.failing_step.raw_gateway_response)
run-Concludes k env st s h a b =
    let (c, e, _, evidence) =
      classify_fault_network_iff st.failing_step.step_id st.failing_step.raw_gateway_response h in
    let t = (node classify env st s).1 in
    let (z, u, r, x, y) = concluded k env st t c c.fault_type refl a b in
    let network = is_network_iff c.fault_type in
    (
      is_network c.fault_type,
      (
        z,
        u,
        run-suc env classify (route_after_classify (judged st c)) st (judged st c) s t
              (classified env st s c e) (unfold next in refl) (suc k)
            ∙ r,
        x,
        y,
      ),
      (λ q. evidence.0 (network.0 q), λ q. network.1 (evidence.1 q)),
    )
