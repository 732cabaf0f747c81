-- ===== src/Authorization/Authorize/Rules.antt =====
-- The rules of authorization/trace.py: what its checks decide, and when they allow a payment.
use revert_x.Prelude.{
  String, ◌≡◌, ◌↔◌, ◌⊎◌, inl, inr, refl, true, false, some, List, arith, contains, Bool-cases,
  Option-cases, if◌then◌else◌, eq_iff,
}
use revert_x.Int.{ℤ, pos, ◌≤ℤ◌, ◌+ℤ◌, +ℤ_parts, -ℤ_parts}
use revert_x.Python.{Result, ok, raised}
use revert_x.Db.{WalletRow}
use revert_x.Authorization.Wallet.{can_spend}
use revert_x.Authorization.Policy.{evaluate, all_passed}
use revert_x.Authorization.RealBalance.{check_real_balance}
use revert_x.Authorization.Authorize.{
  AuthEnv, AuthRequest, Decision, allowed, blocked, wallet, policy, real_balance,
  real_payout_merchant_ids,
}

-- The decision, as a function of what the checks see.
unfoldable pub balance_decision : AuthEnv → AuthRequest → Result ℤ → Result Decision
balance_decision env req (raised e) = raised e
balance_decision env req (ok available) =
    if (check_real_balance env.force_insufficient req.amount req.merchant_id available).passes
    then ok allowed
    else ok (blocked real_balance)

abbrev pub balance_step : AuthEnv → AuthRequest → Result Decision
balance_step env req =
    if contains req.merchant_id real_payout_merchant_ids
    then balance_decision env req env.available_balance
    else ok allowed

abbrev pub policy_step : AuthEnv → AuthRequest → Result Decision
policy_step env req =
    if all_passed (evaluate req.amount req.category req.recipient_id env.config)
    then balance_step env req
    else ok (blocked policy)

abbrev pub decision : AuthEnv → AuthRequest → WalletRow → Result Decision
decision env req w = if can_spend req.amount w then policy_step env req else ok (blocked wallet)

-- What a payment must satisfy, given the wallet that is seen.
pub record IsAuthorized (env : AuthEnv) (req : AuthRequest) (w : WalletRow) : Type 0 where
  pub per_txn : req.amount ≤ℤ w.per_txn_limit
  -- within the rest of the day's limit, or not positive once the limit is used up
  pub daily : (req.amount +ℤ w.spent_today ≤ℤ w.daily_limit) ⊎ (req.amount ≤ℤ pos 0)
  pub category : contains req.category env.config.allowed_categories ≡ true
  pub not_denied : contains req.recipient_id env.config.recipient_denylist ≡ false
  pub listed :
      (names : List String)
      → env.config.recipient_allowlist ≡ some names
      → contains req.recipient_id names ≡ true
  pub below_threshold : req.amount ≤ℤ env.config.human_approval_threshold
  pub funded :
      contains req.merchant_id real_payout_merchant_ids ≡ true
      → (b : ℤ) × (env.available_balance ≡ ok b)
        × (req.amount ≤ℤ b)
        × (¬ ((req.merchant_id ≡ "merchant_rzp_insufficient") × (env.force_insufficient ≡ true)))

pub can_spend_iff :
    (a : ℤ) (w : WalletRow)
    → (can_spend a w ≡ true)
      ↔ ((a ≤ℤ w.per_txn_limit) × ((a +ℤ w.spent_today ≤ℤ w.daily_limit) ⊎ (a ≤ℤ pos 0)))
unfolding can_spend
can_spend_iff a w = (
  λ h. (
    ground arith,
    ground (arith, +ℤ_parts a w.spent_today, -ℤ_parts w.daily_limit w.spent_today),
  ),
  λ h. ground (arith, +ℤ_parts a w.spent_today, -ℤ_parts w.daily_limit w.spent_today),
)

all_passed_iff :
    (env : AuthEnv) (req : AuthRequest)
    → (all_passed (evaluate req.amount req.category req.recipient_id env.config) ≡ true) ↔ (
        (contains req.category env.config.allowed_categories ≡ true)
        × (contains req.recipient_id env.config.recipient_denylist ≡ false)
        × ((names : List String)
            → env.config.recipient_allowlist ≡ some names
            → contains req.recipient_id names ≡ true)
        × (req.amount ≤ℤ env.config.human_approval_threshold))
unfolding all_passed evaluate
all_passed_iff env req = (
  λ h. (ground arith, ground arith, λ names e. ground arith, ground arith),
  λ h. elim (Option-cases env.config.recipient_allowlist) [
    | inl e ↦ ground arith
    | inr (names, e) ↦ ground (arith, h.2 names e)
  ],
)

balance_iff :
    (env : AuthEnv) (req : AuthRequest) (b : ℤ)
    → ((check_real_balance env.force_insufficient req.amount req.merchant_id b).passes ≡ true) ↔ (
        (req.amount ≤ℤ b)
        × (¬ ((req.merchant_id ≡ "merchant_rzp_insufficient") × (env.force_insufficient ≡ true))))
unfolding check_real_balance
balance_iff env req b = (
  λ h. (
    ground arith,
    λ f. ground (arith, f.0, f.1, eq_iff req.merchant_id "merchant_rzp_insufficient"),
  ),
  λ h. ground (arith, h.1, eq_iff req.merchant_id "merchant_rzp_insufficient"),
)

balance_step_allowed :
    (env : AuthEnv) (req : AuthRequest)
    → balance_step env req ≡ ok allowed
    → contains req.merchant_id real_payout_merchant_ids ≡ true
    → (a : Result ℤ) → env.available_balance ≡ a
    → (b : ℤ) × (env.available_balance ≡ ok b)
      × (req.amount ≤ℤ b)
      × (¬ ((req.merchant_id ≡ "merchant_rzp_insufficient") × (env.force_insufficient ≡ true)))
unfolding balance_decision
balance_step_allowed env req h m (raised e) k = absurd (ground arith)
balance_step_allowed env req h m (ok b) k =
    let passes : (check_real_balance env.force_insufficient req.amount req.merchant_id b).passes
        ≡ true =
      ground arith in
    let fits = (balance_iff env req b).0 passes in (b, k, fits.0, fits.1)

funded_step :
    (env : AuthEnv) (req : AuthRequest)
    → (contains req.merchant_id real_payout_merchant_ids ≡ true
        → (b : ℤ) × (env.available_balance ≡ ok b)
          × (req.amount ≤ℤ b)
          × (¬ ((req.merchant_id ≡ "merchant_rzp_insufficient") × (env.force_insufficient ≡ true))))
    → balance_step env req ≡ ok allowed
unfolding balance_decision
funded_step env req h = elim (Bool-cases (contains req.merchant_id real_payout_merchant_ids)) [
  | inr n ↦ rw n refl
  | inl y ↦
      let (b, e, le, free) = h y in
      rw (y, e) (unfold balance_decision in rw ((balance_iff env req b).1 (le, free)) refl)
]

pub decision_allowed_iff :
    (env : AuthEnv) (req : AuthRequest) (w : WalletRow)
    → (decision env req w ≡ ok allowed) ↔ IsAuthorized env req w
decision_allowed_iff env req w = (
  λ h.
      let spend = (can_spend_iff req.amount w).0 (ground arith) in
      let rules = (all_passed_iff env req).0 (ground arith) in
      record {
        per_txn = spend.0;
        daily = spend.1;
        category = rules.0;
        not_denied = rules.1;
        listed = rules.2;
        below_threshold = rules.3;
        funded = λ m. balance_step_allowed env req (ground arith) m env.available_balance refl;
      },
  λ p. rw ((can_spend_iff req.amount w).1 (p.per_txn, p.daily)) (
      rw ((all_passed_iff env req).1 (p.category, p.not_denied, p.listed, p.below_threshold))
        (funded_step env req p.funded)),
)
