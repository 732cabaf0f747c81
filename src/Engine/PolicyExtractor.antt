-- ===== src/Engine/PolicyExtractor.antt =====
-- engine/policy_extractor.py and the endpoint of engine/policy_service.py. The language model is a
-- parameter: the chunks that it streams at each attempt, and the exception that ends the stream, if
-- one does; so are `json.loads`, `float` on a text, and the search of a word in a text. The prompt,
-- the pause, the metrics and the quoted conditions are left out. A percentage counts hundredths.
pub mod Laws
pub mod Relay
use Prim.Native.String
use revert_x.Prelude.{
  ℕ, zero, suc, String, Bool, true, false, Option, none, some, List, [], ◌∷◌, ◌++◌, ◌||◌, keep, not,
  ◌==◌, if◌then◌else◌,
}
use revert_x.Int.{ℤ}
use revert_x.Python.{
  Exc, type_error, value_error, key_error, json_error, Result, ok, raised, Exec, pure, lift, modify,
  catch, and_then, ◌>>=◌, ◌>>◌,
}
use revert_x.Json.{Json, null, str, arr, obj, Items, nil, cons, Fields, get, truthy, is_text}
use revert_x.System.{System, publish_event, fields}
use revert_x.Values.{to_float, is_in}
use revert_x.Compensation.State.{PolicyTerms}
use revert_x.Compensation.Policy.{fail_safe}

-- What the model streams: the texts of the chunks, and the exception that comes after them.
pub record Stream : Type 0 where
  pub chunks : List String
  pub broken : Option Exc

pub record ExtractorEnv : Type 0 where
  pub stream : String → ℕ → Stream
  pub loads : String → Result Json
  pub parse_float : String → Option ℤ
  pub mentions : String → String → Bool

-- A chunk without text is skipped: `if chunk.text`.
unfoldable pub live_chunks : List String → List String
live_chunks chunks = keep (λ c. not (c == "")) chunks

-- `full_text`
abbrev pub join : List String → String
join [] = ""
join (c ∷ cs) = String.◌++◌ c (join cs)

-- `_sync_stream`, and what `_sync_stream_to_queue` returns.
unfoldable pub sync_stream : Stream → Result String
unfolding live_chunks
sync_stream stream = elim stream.broken [
  | none ↦ ok (join (live_chunks stream.chunks))
  | some e ↦ raised e
]

-- `data.get("penalty_percentage")` as a float, if it is not `None`.
unfoldable penalty : ExtractorEnv → Fields → Result (Option ℤ)
penalty env m = elim (get "penalty_percentage" m) [
  | none ↦ ok none
  | some v ↦ elim v [
    | null ↦ ok none
    | w ↦ and_then (to_float env.parse_float w) (λ x. ok (some x))
  ]
]

-- The terms that a dict has; to take a key of anything else is a `TypeError`.
unfoldable pub terms_of : ExtractorEnv → Json → Result PolicyTerms
unfolding penalty
terms_of env (obj m) = elim (get "refundable" m) [
  | none ↦ raised key_error
  | some r ↦
      and_then (penalty env m)
        (λ p. ok (record { refundable = truthy r; penalty_percentage = p; is_fail_safe = false }))
]
terms_of env _ = raised type_error

unfoldable pub read_terms : ExtractorEnv → String → Result PolicyTerms
unfolding terms_of
read_terms env full_text = and_then (env.loads full_text) (λ v.
    and_then (is_in env.mentions "refundable" v)
      (λ present. if present then terms_of env v else raised value_error))

-- The channel that the chunks go to, if there is one.
abbrev pub stream_callback : String → String → System → System
stream_callback wid chunk s =
    if wid == ""
    then s
    else publish_event wid "llm_stream_chunk" (fields (("chunk", str chunk) ∷ [])) s

-- The consumer of the queue, up to the sentinel: it comes after the last chunk, also when the stream
-- breaks.
unfoldable pub forward : String → List String → System → System
unfolding publish_event
forward wid [] s = s
forward wid (c ∷ cs) s = forward wid cs (stream_callback wid c s)

-- The body of the `try` of one attempt.
unfoldable pub attempt_terms : ExtractorEnv → String → String → ℕ → Exec System PolicyTerms
unfolding forward live_chunks sync_stream read_terms
attempt_terms env wid policy_text attempt =
    let stream = env.stream policy_text attempt in
    modify (forward wid (live_chunks stream.chunks))
    >> lift (and_then (sync_stream stream) (read_terms env))

-- A failure of either kind is tried once more, and ends in the terms that refuse.
unfoldable pub extract_from : ExtractorEnv → String → String → ℕ → ℕ → Exec System PolicyTerms
unfolding attempt_terms
extract_from env wid policy_text zero k = pure fail_safe
extract_from env wid policy_text (suc left) k =
    catch (attempt_terms env wid policy_text k) (λ e. extract_from env wid policy_text left (suc k))

unfoldable pub extract_policy_terms : ExtractorEnv → String → String → Exec System PolicyTerms
unfolding extract_from
extract_policy_terms env wid policy_text = extract_from env wid policy_text 2 0

-- The endpoint `/extract`; with no workflow the chunks go nowhere.
unfoldable pub extract : ExtractorEnv → String → String → Exec System PolicyTerms
unfolding extract_policy_terms
extract env wid policy_text = catch (extract_policy_terms env wid policy_text) (λ e. pure fail_safe)
