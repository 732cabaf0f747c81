-- ===== src/Db/Payouts.antt =====
-- The payouts whose outcome is open: the queries of db/client.py on `pending_payouts`.
use revert_x.Prelude.{
  ℕ, ◌+◌, String, none, some, List, [], ◌∷◌, ◌++◌, Bool, true, false, eqb, keep, find,
  if◌then◌else◌,
}
use revert_x.Int.{ℤ}
use revert_x.Db.Tables.{PayoutState, pending, PendingPayout, Db}

-- `UPDATE pending_payouts SET ... WHERE id = row`
unfoldable pub update_row :
    ℕ → (PendingPayout → PendingPayout) → List PendingPayout → List PendingPayout
update_row row f [] = []
update_row row f (p ∷ ps) = (if eqb p.id row then f p else p) ∷ update_row row f ps

abbrev pub update_payout : ℕ → (PendingPayout → PendingPayout) → Db → Db
update_payout row f db = record db { pending_payouts = update_row row f db.pending_payouts }

-- The arguments of the insert: every column but those with a default.
pub record NewPayout : Type 0 where
  pub workflow_id : String
  pub merchant_id : String
  pub payee : String
  pub amount : ℤ
  pub currency : String
  pub payout_id : String
  pub step_id : String
  pub razorpay_status : String

unfoldable pub create_pending_payout : NewPayout → Db → ℕ × Db
create_pending_payout n db =
    let row : PendingPayout = record {
      id = db.next_payout;
      workflow_id = n.workflow_id;
      merchant_id = n.merchant_id;
      payee = n.payee;
      amount = n.amount;
      currency = n.currency;
      payout_id = n.payout_id;
      step_id = n.step_id;
      razorpay_status = n.razorpay_status;
      checks_done = 0;
      status = pending;
    } in
    (
      db.next_payout,
      record db {
        pending_payouts = db.pending_payouts ++ row ∷ [];
        next_payout = db.next_payout + 1;
      },
    )

unfoldable pub set_pending_payout_step_id : ℕ → String → Db → Db
unfolding update_row
set_pending_payout_step_id row step = update_payout row (λ p. record p { step_id = step })

abbrev pub is_pending : PayoutState → Bool
is_pending pending = true
is_pending _ = false

unfoldable pub get_open_pending_payouts : Db → List PendingPayout
get_open_pending_payouts db = keep (λ p. is_pending p.status) db.pending_payouts

unfoldable pub touched : String → PendingPayout → PendingPayout
touched status p = record p { checks_done = p.checks_done + 1; razorpay_status = status }

-- One more check, and the number of checks after it; 0 if there is no such row.
unfoldable pub touch_pending_payout : ℕ → String → Db → ℕ × Db
unfolding touched update_row
touch_pending_payout row status db = (
  elim (find (λ p. eqb p.id row) db.pending_payouts) [ none ↦ 0 | some p ↦ p.checks_done + 1 ],
  update_payout row (touched status) db,
)

unfoldable pub resolve_pending_payout : ℕ → PayoutState → String → Db → Db
unfolding update_row
resolve_pending_payout row state status =
    update_payout row
      (λ p. record p { status = state; razorpay_status = status; checks_done = p.checks_done + 1 })
