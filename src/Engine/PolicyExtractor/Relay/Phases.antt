-- ===== src/Engine/PolicyExtractor/Relay/Phases.antt =====
-- The phases of a relayed stream, and that every step stays in one.
use revert_x.Prelude.{
  ℕ, ◌≡◌, refl, sym, ap, ◌∙◌, String, true, false, Option, none, some, List, [], ◌∷◌, ◌++◌, map,
  append-nil, arith, ◌==◌, subst,
}
use mathlib.Core.List.{map-append, append_assoc}
use revert_x.System.{System}
use revert_x.Engine.PolicyExtractor.{live_chunks, forward, stream_callback}
use revert_x.Engine.PolicyExtractor.Relay.{
  Relay, Step, put_chunk, skip_chunk, put_end, take_chunk, take_end, Run, here, next, relay_start,
}

-- Where the two sides are, while the loop has `goal` before it.
pub data Phase (wid : String) (goal : System) (r : Relay) : Type 0 where
  streaming :
      (q : List String)
      → r.producing ≡ true
      → r.ended ≡ false
      → r.queue ≡ map some q
      → forward wid (q ++ live_chunks r.todo) r.system ≡ goal
      → Phase wid goal r
  draining :
      (q : List String)
      → r.producing ≡ false
      → r.todo ≡ []
      → r.ended ≡ false
      → r.queue ≡ map some q ++ none ∷ []
      → forward wid q r.system ≡ goal
      → Phase wid goal r
  done :
      r.producing ≡ false
      → r.todo ≡ []
      → r.ended ≡ true
      → r.queue ≡ []
      → r.system ≡ goal
      → Phase wid goal r

pub Phase-start :
    (wid : String) (chunks : List String) (s : System)
    → Phase wid (forward wid (live_chunks chunks) s) (relay_start chunks s)
Phase-start wid chunks s = streaming [] refl refl refl refl

live-cons :
    (c : String) (cs : List String) → (c == "") ≡ false → live_chunks (c ∷ cs) ≡ c ∷ live_chunks cs
unfolding live_chunks
live-cons c cs n = ground arith

live-skip :
    (c : String) (cs : List String) → (c == "") ≡ true → live_chunks (c ∷ cs) ≡ live_chunks cs
unfolding live_chunks
live-skip c cs y = ground arith

Phase-put_chunk :
    {wid : String} {goal : System} {r : Relay} (c : String) (cs : List String)
    → r.todo ≡ c ∷ cs
    → (c == "") ≡ false
    → Phase wid goal r
    → Phase wid goal (record r { todo = cs; queue = r.queue ++ some c ∷ [] })
Phase-put_chunk {wid} {goal} {r} c cs e n (streaming q p d h f) =
    streaming (q ++ c ∷ []) p d
      (ap (λ l. l ++ some c ∷ []) h ∙ sym (map-append (λ x. some x) q (c ∷ [])))
      (ap (λ l. forward wid l r.system)
          (append_assoc q (c ∷ []) (live_chunks cs)
            ∙ ap (λ l. q ++ l) (sym (live-cons c cs n) ∙ ap live_chunks (sym e)))
        ∙ f)
Phase-put_chunk c cs e n (draining q p t d h f) = absurd (ground arith)
Phase-put_chunk c cs e n (done p t d h f) = absurd (ground arith)

Phase-skip_chunk :
    {wid : String} {goal : System} {r : Relay} (c : String) (cs : List String)
    → r.todo ≡ c ∷ cs
    → (c == "") ≡ true
    → Phase wid goal r
    → Phase wid goal (record r { todo = cs })
Phase-skip_chunk {wid} {goal} {r} c cs e y (streaming q p d h f) =
    streaming q p d h (
      ap (λ l. forward wid (q ++ l) r.system) (sym (live-skip c cs y) ∙ ap live_chunks (sym e)) ∙ f)
Phase-skip_chunk c cs e y (draining q p t d h f) = absurd (ground arith)
Phase-skip_chunk c cs e y (done p t d h f) = absurd (ground arith)

Phase-put_end :
    {wid : String} {goal : System} {r : Relay}
    → r.todo ≡ []
    → r.producing ≡ true
    → Phase wid goal r
    → Phase wid goal (record r { producing = false; queue = r.queue ++ none ∷ [] })
unfolding live_chunks
Phase-put_end {wid} {goal} {r} e y (streaming q p d h f) =
    draining q refl e d (ap (λ l. l ++ none ∷ []) h) (
      ap (λ l. forward wid l r.system) (sym (append-nil q) ∙ ap (λ l. q ++ live_chunks l) (sym e))
      ∙ f)
Phase-put_end e y (draining q p t d h f) = absurd (ground arith)
Phase-put_end e y (done p t d h f) = absurd (ground arith)

Phase-take_chunk :
    {wid : String} {goal : System} {r : Relay} (c : String) (rest : List (Option String))
    → r.ended ≡ false
    → r.queue ≡ some c ∷ rest
    → Phase wid goal r
    → Phase wid goal (record r { queue = rest; system = stream_callback wid c r.system })
unfolding forward
Phase-take_chunk c rest n e (streaming [] p d h f) = absurd (ground arith)
Phase-take_chunk {wid} {goal} {r} c rest n e (streaming (x ∷ q) p d h f) =
    let same : x ≡ c = ground arith in
    streaming q p d (ground arith) (
      subst (λ z. forward wid (q ++ live_chunks r.todo) (stream_callback wid z r.system) ≡ goal)
        same f)
Phase-take_chunk c rest n e (draining [] p t d h f) = absurd (ground arith)
Phase-take_chunk {wid} {goal} {r} c rest n e (draining (x ∷ q) p t d h f) =
    let same : x ≡ c = ground arith in
    draining q p t d (ground arith)
      (subst (λ z. forward wid q (stream_callback wid z r.system) ≡ goal) same f)
Phase-take_chunk c rest n e (done p t d h f) = absurd (ground arith)

Phase-take_end :
    {wid : String} {goal : System} {r : Relay} (rest : List (Option String))
    → r.ended ≡ false
    → r.queue ≡ none ∷ rest
    → Phase wid goal r
    → Phase wid goal (record r { queue = rest; ended = true })
unfolding forward
Phase-take_end rest n e (streaming [] p d h f) = absurd (ground arith)
Phase-take_end rest n e (streaming (x ∷ q) p d h f) = absurd (ground arith)
Phase-take_end rest n e (draining [] p t d h f) = done p t refl (ground arith) f
Phase-take_end rest n e (draining (x ∷ q) p t d h f) = absurd (ground arith)
Phase-take_end rest n e (done p t d h f) = absurd (ground arith)

Step-Phase :
    {wid : String} {goal : System} {r t : Relay}
    → Step wid r t
    → Phase wid goal r
    → Phase wid goal t
Step-Phase (put_chunk c cs e n) h = Phase-put_chunk c cs e n h
Step-Phase (skip_chunk c cs e n) h = Phase-skip_chunk c cs e n h
Step-Phase (put_end e p) h = Phase-put_end e p h
Step-Phase (take_chunk c q n e) h = Phase-take_chunk c q n e h
Step-Phase (take_end q n e) h = Phase-take_end q n e h

pub Run-Phase :
    {wid : String} {goal : System} {r t : Relay} {k : ℕ}
    → Run wid r k t
    → Phase wid goal r
    → Phase wid goal t
Run-Phase here h = h
Run-Phase (next run step) h = Step-Phase step (Run-Phase run h)
