-- ===== src/Engine/PolicyExtractor/Relay.antt =====
-- The two sides of the queue in engine/policy_extractor.py: the thread of `_sync_stream_to_queue`
-- puts chunks, the loop of `extract_policy_terms` takes them, in any order that the queue allows. The
-- sentinel is put in a `finally`, so it follows the last chunk whether or not the stream broke.
pub mod Phases
pub mod Ends
use revert_x.Prelude.{
  ℕ, suc, ◌+◌, ◌*◌, ◌≤◌, ◌≡◌, ◌⊎◌, inl, inr, refl, sym, ap, ◌∙◌, String, Bool, true, false, Option,
  none, some, List, [], ◌∷◌, ◌++◌, length, length-append, map, append-nil, arith, ◌==◌, Bool-cases,
  if◌then◌else◌, subst,
}
use mathlib.Core.List.{map-append, append_assoc}
use revert_x.System.{System}
use revert_x.Engine.PolicyExtractor.{live_chunks, forward, stream_callback}

-- The chunks that the model has still to stream, whether the thread has still to put its sentinel,
-- the queue, whether the loop has seen the sentinel, and the state that its callback writes to.
pub record Relay : Type 0 where
  pub todo : List String
  pub producing : Bool
  pub queue : List (Option String)
  pub ended : Bool
  pub system : System

pub data Step (wid : String) (r : Relay) : Relay → Type 0 where
  put_chunk :
      (c : String) (cs : List String)
      → r.todo ≡ c ∷ cs
      → (c == "") ≡ false
      → Step wid r (record r { todo = cs; queue = r.queue ++ some c ∷ [] })
  skip_chunk :
      (c : String) (cs : List String)
      → r.todo ≡ c ∷ cs
      → (c == "") ≡ true
      → Step wid r (record r { todo = cs })
  put_end :
      r.todo ≡ []
      → r.producing ≡ true
      → Step wid r (record r { producing = false; queue = r.queue ++ none ∷ [] })
  take_chunk :
      (c : String) (q : List (Option String))
      → r.ended ≡ false
      → r.queue ≡ some c ∷ q
      → Step wid r (record r { queue = q; system = stream_callback wid c r.system })
  take_end :
      (q : List (Option String))
      → r.ended ≡ false
      → r.queue ≡ none ∷ q
      → Step wid r (record r { queue = q; ended = true })

-- Runs, with the number of their steps.
pub data Run (wid : String) (r : Relay) : ℕ → Relay → Type 0 where
  here : Run wid r 0 r
  next : {k : ℕ} {t u : Relay} → Run wid r k t → Step wid t u → Run wid r (suc k) u

abbrev pub relay_start : List String → System → Relay
relay_start chunks s = record {
  todo = chunks;
  producing = true;
  queue = [];
  ended = false;
  system = s;
}
