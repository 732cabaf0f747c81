-- ===== src/Engine/PolicySanitizer/Laws.antt =====
-- What a clean answer of the sanitizer says.
use Prim.Native.String.{count}
use Prim.Native.String.count
use revert_x.Prelude.{
  ℕ, zero, suc, ◌≤◌, ◌≡◌, ◌↔◌, refl, ap, not, get_or, String, Bool, true, false, Option, some, List,
  [], ◌∷◌, All, arith, ltb, is_nonempty, Bool-cases, inl, inr, if◌then◌else◌,
}
use revert_x.Engine.PolicySanitizer.{
  Pattern, is_clean, first_chars, redact, sanitize_policy_text, max_policy_text_chars,
}

-- None of the patterns is in the text.
abbrev pub Harmless : List Pattern → String → Type 0
Harmless ps text = All (λ p. p.search text ≡ false) ps

redact-Harmless :
    (ps : List Pattern) (text : String)
    → (is_nonempty (redact ps text).0 ≡ false) ↔ Harmless ps text
unfolding redact
redact-Harmless [] text = (λ h. tt, λ h. refl)
redact-Harmless (p ∷ ps) text = elim (Bool-cases (p.search text)) [
  | inl found ↦ rw (found, redact) (λ h. ground arith, λ (h, k). ground (arith, h))
  | inr missed ↦
      let (there, back) = redact-Harmless ps text in
      rw (missed, redact) (λ h. (refl, there h), λ (h, k). back k)
]

redact_kept : (ps : List Pattern) (text : String) → Harmless ps text → (redact ps text).1 ≡ text
unfolding redact
redact_kept [] text h = refl
redact_kept (p ∷ ps) text (h, k) = rw h (redact_kept ps text k)

first_chars-count : (n : ℕ) (s : String) → count (first_chars n s) ≤ n
unfolding first_chars
first_chars-count zero s = omega arith
first_chars-count (suc n) String.[] = omega arith
first_chars-count (suc n) (String.◌∷◌ c s) =
    rw (count.cons c (first_chars n s)) (omega (arith, first_chars-count n s))

not-true : (b : Bool) → not b ≡ true → b ≡ false
not-true true h = ground arith
not-true false h = refl

clean_iff :
    (ps : List Pattern) (raw : String)
    → (is_clean (sanitize_policy_text ps (some raw)) ≡ true)
      ↔ ((count raw ≤ max_policy_text_chars) × Harmless ps raw)
unfolding sanitize_policy_text
clean_iff ps raw = elim (Bool-cases (ltb max_policy_text_chars (count raw))) [
  | inl long ↦ rw long (λ h. ground (arith, h), λ (h, k). ground (arith, h, long))
  | inr short ↦
      let (there, back) = redact-Harmless ps raw in
      rw short (
        λ h. (ground (arith, short), there (not-true (is_nonempty (redact ps raw).0) h)),
        λ (h, k). ap not (back k),
      )
]

kept_text :
    (ps : List Pattern) (raw : String)
    → count raw ≤ max_policy_text_chars
    → Harmless ps raw
    → (sanitize_policy_text ps (some raw)).text ≡ raw
unfolding sanitize_policy_text
kept_text ps raw h k =
    let short : ltb max_policy_text_chars (count raw) ≡ false = ground (arith, h) in
    rw short (redact_kept ps raw k)

-- The answer is clean exactly if the text has at most 2000 characters and none of the patterns is in
-- it; and exactly then all this holds and the text is the given one.
pub sanitize_policy_text-clean :
    (ps : List Pattern) (raw : String)
    → let r = sanitize_policy_text ps (some raw) in
      ((is_clean r ≡ true) ↔ ((count raw ≤ max_policy_text_chars) × Harmless ps raw))
      × ((is_clean r ≡ true)
          ↔ ((count raw ≤ max_policy_text_chars) × Harmless ps raw × (r.text ≡ raw)))
sanitize_policy_text-clean ps raw =
    let (there, back) = clean_iff ps raw in
    (
      (there, back),
      (
        λ h. let (short, harmless) = there h in (short, harmless, kept_text ps raw short harmless),
        λ (short, harmless, same). back (short, harmless),
      ),
    )

cut_bound :
    (raw : String)
    → count (
        if ltb max_policy_text_chars (count raw)
        then first_chars max_policy_text_chars raw
        else raw)
      ≤ max_policy_text_chars
cut_bound raw = elim (Bool-cases (ltb max_policy_text_chars (count raw))) [
  | inl long ↦ rw long (first_chars-count max_policy_text_chars raw)
  | inr short ↦ rw short (ground (arith, short))
]

-- Without a flag, the text is what the length allows: at most 2000 characters.
sanitize_policy_text-bound :
    (ps : List Pattern) (raw : Option String)
    → (sanitize_policy_text ps raw).injection_flags ≡ []
    → count (sanitize_policy_text ps raw).text ≤ max_policy_text_chars
unfolding sanitize_policy_text
sanitize_policy_text-bound ps raw h =
    let cut =
      if ltb max_policy_text_chars (count (get_or raw ""))
      then first_chars max_policy_text_chars (get_or raw "")
      else get_or raw "" in
    let k = (redact-Harmless ps cut).0 (ap is_nonempty h) in
    rw (redact_kept ps cut k) (cut_bound (get_or raw ""))
