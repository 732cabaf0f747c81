-- ===== src/Engine/PolicyExtractor/Relay/Ends.antt =====
-- A relayed stream ends, with everything forwarded.
use revert_x.Prelude.{
  ℕ, suc, ◌+◌, ◌*◌, ◌≤◌, ◌≡◌, ◌⊎◌, inl, inr, refl, ap, String, true, none, some, List, [], ◌∷◌,
  ◌++◌, length, length-append, map, arith, ◌==◌, Bool-cases, if◌then◌else◌,
}
use revert_x.System.{System}
use revert_x.Engine.PolicyExtractor.{live_chunks, forward}
use revert_x.Engine.PolicyExtractor.Relay.{
  Relay, Step, put_chunk, skip_chunk, put_end, take_chunk, take_end, Run, here, next, relay_start,
}
use revert_x.Engine.PolicyExtractor.Relay.Phases.{
  Phase, streaming, draining, done, Phase-start, Run-Phase,
}

-- What a step uses up: a chunk is put and taken, and so is the sentinel.
abbrev work : Relay → ℕ
work r = 2 * length r.todo + length r.queue + (if r.producing then 2 else 0)

Step-work : {wid : String} {r t : Relay} → Step wid r t → suc (work t) ≤ work r
Step-work {r = r} (put_chunk c cs e n) =
    omega (arith, ap length e, length-append r.queue (some c ∷ []))
Step-work (skip_chunk c cs e n) = omega (arith, ap length e)
Step-work {r = r} (put_end e p) =
    rw p (omega (arith, ap length e, length-append r.queue (none ∷ [])))
Step-work (take_chunk c q e n) = omega (arith, ap length n)
Step-work (take_end q e n) = omega (arith, ap length n)

Run-work : {wid : String} {r t : Relay} {k : ℕ} → Run wid r k t → k + work t ≤ work r
Run-work here = omega arith
Run-work (next run step) = omega (arith, Run-work run, Step-work step)

-- Whether the loop has ended, with the system as `goal`; else some step can be taken.
abbrev Goes : String → System → Relay → Type 0
Goes wid goal r = ((r.ended ≡ true) × (r.system ≡ goal)) ⊎ ((t : Relay) × Step wid r t)

put_next :
    {wid : String} {r : Relay} (cs : List String)
    → r.todo ≡ cs
    → r.producing ≡ true
    → (t : Relay) × Step wid r t
put_next [] e p = (_, put_end e p)
put_next (c ∷ cs) e p = elim (Bool-cases (c == "")) [
  | inl y ↦ (_, skip_chunk c cs e y)
  | inr n ↦ (_, put_chunk c cs e n)
]

Phase-Goes : {wid : String} {goal : System} {r : Relay} → Phase wid goal r → Goes wid goal r
Phase-Goes {r = r} (streaming q p d h f) = inr (put_next r.todo refl p)
Phase-Goes (draining [] p t d h f) = inr (_, take_end [] d h)
Phase-Goes (draining (c ∷ q) p t d h f) = inr (_, take_chunk c (map some q ++ none ∷ []) d h)
Phase-Goes (done p t d h f) = inl (d, f)

-- In whatever order the two sides take turns, they take at most two steps for each chunk and two
-- more; and as long as the loop has not ended some step can be taken, so that nothing waits forever.
-- When it has ended, the chunks with text have been published in the order of the stream.
pub relay_ends :
    (wid : String) (chunks : List String) (s : System) {k : ℕ} {t : Relay}
    → Run wid (relay_start chunks s) k t
    → (k ≤ 2 * length chunks + 2)
      × (((t.ended ≡ true) × (t.system ≡ forward wid (live_chunks chunks) s))
          ⊎ ((u : Relay) × Step wid t u))
relay_ends wid chunks s run =
    (omega (arith, Run-work run), Phase-Goes (Run-Phase run (Phase-start wid chunks s)))
