-- ===== src/Engine/PolicyExtractor/Laws.antt =====
-- The extraction as a whole: what it answers, what it streams, and what follows for the refund.
use revert_x.Prelude.{ℕ, ◌≡◌, refl, String, true, none, some, List, [], ◌∷◌, ◌++◌, arith}
use revert_x.Python.{Exc, Result, ok, raised, and_then}
use revert_x.Schemas.{TransactionLogEntry}
use revert_x.System.{System}
use revert_x.RefundMath.{compute_refund}
use revert_x.Compensation.State.{PolicyTerms}
use revert_x.Compensation.Policy.{fail_safe, refund_of}
use revert_x.Engine.PolicyExtractor.{
  ExtractorEnv, live_chunks, sync_stream, read_terms, forward, attempt_terms, extract_from,
  extract_policy_terms, extract,
}

-- What one attempt yields.
abbrev pub outcome : ExtractorEnv → String → ℕ → Result PolicyTerms
outcome env text k = and_then (sync_stream (env.stream text k)) (read_terms env)

-- The first terms that an attempt yields, and else the terms that refuse.
abbrev pub first_terms : Result PolicyTerms → Result PolicyTerms → PolicyTerms
first_terms (ok t) second = t
first_terms (raised e) (ok t) = t
first_terms (raised e) (raised e') = fail_safe

-- What the attempts stream; the second one starts if the first one fails.
abbrev pub streamed : ExtractorEnv → String → Result PolicyTerms → List String
streamed env text (ok t) = live_chunks (env.stream text 0).chunks
streamed env text (raised e) =
    live_chunks (env.stream text 0).chunks ++ live_chunks (env.stream text 1).chunks

forward-append :
    (wid : String) (cs ds : List String) (s : System)
    → forward wid (cs ++ ds) s ≡ forward wid ds (forward wid cs s)
unfolding forward
forward-append wid [] ds s = refl
forward-append wid (c ∷ cs) ds s = forward-append wid cs ds _

pub extract_lem :
    (env : ExtractorEnv) (wid text : String) (s : System)
    → extract env wid text s ≡ (
      ok (first_terms (outcome env text 0) (outcome env text 1)),
      forward wid (streamed env text (outcome env text 0)) s,
    )
unfolding extract extract_policy_terms extract_from attempt_terms
extract_lem env wid text s = ground (
  arith,
  forward-append wid (live_chunks (env.stream text 0).chunks)
      (live_chunks (env.stream text 1).chunks) s,
)

-- When both attempts fail, the terms that `/extract` answers let the graph refund nothing of a step.
extract-refund_of :
    (env : ExtractorEnv) (wid text : String) (s : System) (x y : Exc) (e : TransactionLogEntry)
    → outcome env text 0 ≡ raised x
    → outcome env text 1 ≡ raised y
    → (t : PolicyTerms) × ((extract env wid text s).0 ≡ ok t)
      × (t.is_fail_safe ≡ true)
      × (refund_of (some t) e ≡ none)
unfolding refund_of compute_refund
extract-refund_of env wid text s x y e h k =
    (fail_safe, ground (arith, extract_lem env wid text s, h, k), refl, refl)
