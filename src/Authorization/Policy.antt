-- ===== src/Authorization/Policy.antt =====
-- authorization/policy.py: the rules that a payment must obey.
use revert_x.Prelude.{String, Bool, not, Option, none, some, List, [], ◌∷◌, ◌++◌, all, contains}
use revert_x.Int.{ℤ, pos, ltb_ℤ}

pub record PolicyConfig : Type 0 where
  pub allowed_categories : List String
  pub recipient_allowlist : Option (List String)
  pub recipient_denylist : List String
  pub human_approval_threshold : ℤ

abbrev pub default_policy_config : PolicyConfig
default_policy_config = record {
  allowed_categories = "vendor_payment" ∷ "conference_registration" ∷ "subscription" ∷ [];
  recipient_allowlist = none;
  recipient_denylist = [];
  human_approval_threshold = pos 2500000;
}

pub record PolicyCheckResult : Type 0 where
  pub check : String
  pub passed : Bool

abbrev result : String → Bool → PolicyCheckResult
result check passed = record { check = check; passed = passed }

-- No allowlist, no check.
allowlist_check : String → Option (List String) → List PolicyCheckResult
allowlist_check recipient none = []
allowlist_check recipient (some allowed) =
    result "check_recipient_allowlist" (contains recipient allowed) ∷ []

unfoldable pub evaluate : ℤ → String → String → PolicyConfig → List PolicyCheckResult
unfolding allowlist_check
evaluate amount category recipient config =
    result "check_category" (contains category config.allowed_categories)
    ∷ result "check_recipient_denylist" (not (contains recipient config.recipient_denylist))
    ∷ (allowlist_check recipient config.recipient_allowlist
        ++ result "check_approval_threshold" (not (ltb_ℤ config.human_approval_threshold amount))
          ∷ [])

unfoldable pub all_passed : List PolicyCheckResult → Bool
all_passed = all (λ r. r.passed)
