-- ===== src/Agent/Catalog.antt =====
-- primary_agent/catalog.py: what can be bought. The texts for the language model are left out.
use revert_x.Prelude.{String, ◌≡◌, refl, some, List, [], ◌∷◌, All, arith}
use revert_x.Int.{ℤ, pos, ◌≤ℤ◌}
use revert_x.Dict.{Dict, lookup, insert}
use revert_x.Merchants.Registry.{merchant_payee}

pub record CatalogEntry : Type 0 where
  pub merchant_id : String
  pub payee : String
  pub typical_cost : ℤ
  pub sample_item : String

-- The cost is given in rupees.
abbrev entry : String → String → ℤ → String → CatalogEntry
entry merchant_id payee cost sample = record {
  merchant_id = merchant_id;
  payee = payee;
  typical_cost = cost;
  sample_item = sample;
}

unfoldable pub merchant_catalog : List CatalogEntry
unfolding merchant_payee
merchant_catalog =
    entry "merchant_a" (merchant_payee "merchant_a") (pos 1000000) "CRM license (annual)"
    ∷ entry "merchant_b" (merchant_payee "merchant_b") (pos 2000000) "hotel booking (2 nights)"
    ∷ entry "merchant_c" (merchant_payee "merchant_c") (pos 1200000) "domain registration + hosting"
    ∷ entry "merchant_d" (merchant_payee "merchant_d") (pos 2000000)
        "hotel booking, flexible cancellation"
    ∷ entry "merchant_e" (merchant_payee "merchant_e") (pos 800000) "signage printing"
    ∷ entry "merchant_f" (merchant_payee "merchant_f") (pos 2500000) "venue booking"
    ∷ entry "merchant_g" (merchant_payee "merchant_g") (pos 1500000) "catering"
    ∷ entry "merchant_rzp" "RazorpayX Live Payout" (pos 1500000)
        "conference registration (real payout)"
    ∷ entry "merchant_rzp_pending" "RazorpayX Live Payout (Reconciliation Test)" (pos 1500000)
        "reconciliation test payout (intentionally pending)"
    ∷ entry "merchant_rzp_insufficient" "RazorpayX Live Payout (Insufficient Funds Test)"
        (pos 1500000) "insufficient-funds test payout (intentionally blocked)"
    ∷ entry "merchant_rzp_downstream_fail" "RazorpayX Live Payout (Downstream Failure Test)"
        (pos 1500000) "downstream-failure test payout (triggers reversal)"
    ∷ []

-- `{c.merchant_id: c for c in entries}`, from a dict that is there already.
abbrev by_id : List CatalogEntry → Dict CatalogEntry → Dict CatalogEntry
by_id [] m = m
by_id (e ∷ es) m = by_id es (insert e.merchant_id e m)

unfoldable pub catalog_by_id : Dict CatalogEntry
unfolding merchant_catalog
catalog_by_id = by_id merchant_catalog []

-- No entry hides another.
abbrev pub IsListed : CatalogEntry → Type 0
IsListed e = lookup e.merchant_id catalog_by_id ≡ some e

-- Entries that are listed under their ids, at a cost that is not negative.
abbrev pub Sound : List CatalogEntry → Type 0
Sound es = All (λ e. IsListed e × (pos 0 ≤ℤ e.typical_cost)) es

pub merchant_catalog-Sound : Sound merchant_catalog
unfolding merchant_catalog catalog_by_id
merchant_catalog-Sound = (
  (refl, omega arith),
  (
    (refl, omega arith),
    (
      (refl, omega arith),
      (
        (refl, omega arith),
        (
          (refl, omega arith),
          (
            (refl, omega arith),
            (
              (refl, omega arith),
              (
                (refl, omega arith),
                ((refl, omega arith), ((refl, omega arith), ((refl, omega arith), tt))),
              ),
            ),
          ),
        ),
      ),
    ),
  ),
)
