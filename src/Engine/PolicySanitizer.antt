-- ===== src/Engine/PolicySanitizer.antt =====
-- engine/policy_sanitizer.py. The regular expressions are parameters: the text of each, whether it
-- is found in a text, and the text with the marker in place of what it matches.
pub mod Laws
use Prim.Native.String.{count}
use revert_x.Prelude.{
  ℕ, zero, suc, String, Bool, true, false, Option, none, some, List, [], ◌∷◌, ltb, not, ◌&&◌,
  is_nonempty, get_or, if◌then◌else◌,
}

pub record Pattern : Type 0 where
  pub pattern : String
  pub search : String → Bool
  pub sub : String → String

abbrev pub max_policy_text_chars : ℕ
max_policy_text_chars = 2000

pub record SanitizationResult : Type 0 where
  pub text : String
  pub truncated : Bool
  pub injection_flags : List String

abbrev pub is_clean : SanitizationResult → Bool
is_clean r = not r.truncated && not (is_nonempty r.injection_flags)

-- `text[:n]`
unfoldable pub first_chars : ℕ → String → String
first_chars zero s = String.[]
first_chars (suc n) String.[] = String.[]
first_chars (suc n) (String.◌∷◌ c s) = String.◌∷◌ c (first_chars n s)

-- The flags of the patterns that are found, each in what the earlier ones left, and the text.
unfoldable pub redact : List Pattern → String → List String × String
redact [] text = ([], text)
redact (p ∷ ps) text =
    let found = redact ps (p.sub text) in
    let missed = redact ps text in if p.search text then (p.pattern ∷ found.0, found.1) else missed

unfoldable pub sanitize_policy_text : List Pattern → Option String → SanitizationResult
unfolding redact first_chars
sanitize_policy_text patterns raw_text =
    let raw = get_or raw_text "" in
    let truncated = ltb max_policy_text_chars (count raw) in
    let (flags, text) =
      redact patterns (if truncated then first_chars max_policy_text_chars raw else raw) in
    record { text = text; truncated = truncated; injection_flags = flags }
