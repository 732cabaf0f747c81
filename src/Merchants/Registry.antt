-- ===== src/Merchants/Registry.antt =====
-- mock_merchants/registry.py: who the merchants are, and the views that the other parts take of
-- the table. A merchant's url is told by its port.
use revert_x.Prelude.{ℕ, String, Bool, true, false, Option, none, some, [], ◌∷◌}
use revert_x.Dict.{Dict, lookup}

pub record MerchantSpec : Type 0 where
  pub payee : String
  pub port : ℕ
  pub has_policy : Bool
  pub refund_needs_amount : Bool

abbrev spec : String → ℕ → Bool → Bool → MerchantSpec
spec payee port has_policy needs_amount = record {
  payee = payee;
  port = port;
  has_policy = has_policy;
  refund_needs_amount = needs_amount;
}

pub merchants : Dict MerchantSpec
merchants =
    ("merchant_a", spec "CRM Corp" 8001 false false)
    ∷ ("merchant_b", spec "Grand Hotel" 8002 true false)
    ∷ ("merchant_c", spec "Domain Registrar" 8003 true true)
    ∷ ("merchant_d", spec "Flex-Stay Hotels" 8006 true true)
    ∷ ("merchant_e", spec "Apex Print & Signage" 8007 true false)
    ∷ ("merchant_f", spec "Riverside Events Hall" 8008 true false)
    ∷ ("merchant_g", spec "Spice Route Catering" 8009 true true)
    ∷ []

-- `MERCHANT_URLS.get(merchant_id)`
unfoldable pub merchant_port : String → Option ℕ
unfolding merchants
merchant_port m = elim (lookup m merchants) [ none ↦ none | some s ↦ some s.port ]

-- `MERCHANT_PAYEES.get(merchant_id, "Unknown")`
unfoldable pub merchant_payee : String → String
unfolding merchants
merchant_payee m = elim (lookup m merchants) [ none ↦ "Unknown" | some s ↦ s.payee ]

-- `merchant_id in MERCHANTS_WITH_POLICY`
unfoldable pub has_policy : String → Bool
unfolding merchants
has_policy m = elim (lookup m merchants) [ none ↦ false | some s ↦ s.has_policy ]

-- `merchant_id in MERCHANTS_NEEDING_REFUND_AMOUNT`
unfoldable pub needs_refund_amount : String → Bool
unfolding merchants
needs_refund_amount m = elim (lookup m merchants) [ none ↦ false | some s ↦ s.refund_needs_amount ]
