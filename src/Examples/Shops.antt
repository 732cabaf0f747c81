-- ===== src/Examples/Shops.antt =====
-- The theorems on the merchants and on the policy texts at concrete inputs.
use Prim.Native.String.{count}
use revert_x.Prelude.{zero, suc, ◌≤◌, ◌≡◌, ◌↔◌, true, false, none, some, [], ◌∷◌}
use revert_x.Python.{ok, timeout}
use revert_x.Json.{bool, obj}
use revert_x.System.{System, fields}
use revert_x.Engine.PolicySanitizer.{Pattern, is_clean, sanitize_policy_text, max_policy_text_chars}
use revert_x.Engine.PolicySanitizer.Laws.{Harmless, sanitize_policy_text-clean}
use revert_x.Engine.PolicyExtractor.{ExtractorEnv}
use revert_x.Examples.World.{world, empty_db}

-- A pattern that is found in every text.
abbrev strict_pattern : Pattern
strict_pattern = record { pattern = ".*"; search = λ t. true; sub = λ t. "[REDACTED]" }

sanitize_policy_text-clean_example :
    let r = sanitize_policy_text (strict_pattern ∷ []) (some "Fully refundable.") in
    ((is_clean r ≡ true) ↔ (
      (count "Fully refundable." ≤ max_policy_text_chars)
      × Harmless (strict_pattern ∷ []) "Fully refundable."))
    × ((is_clean r ≡ true) ↔ (
        (count "Fully refundable." ≤ max_policy_text_chars)
        × Harmless (strict_pattern ∷ []) "Fully refundable."
        × (r.text ≡ "Fully refundable.")))
sanitize_policy_text-clean_example =
    sanitize_policy_text-clean (strict_pattern ∷ []) "Fully refundable."

-- The first stream breaks, and the second one is read.
abbrev second_time : ExtractorEnv
second_time = record {
  stream = λ text k. record {
    chunks = "{" ∷ "}" ∷ [];
    broken = elim k [ zero ↦ some timeout | suc _ ↦ none ];
  };
  loads = λ t. ok (obj (fields (("refundable", bool true) ∷ [])));
  parse_float = λ t. none;
  mentions = λ w t. false;
}

abbrev start : System
start = world empty_db
