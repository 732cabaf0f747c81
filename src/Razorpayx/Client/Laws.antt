-- ===== src/Razorpayx/Client/Laws.antt =====
-- What `poll_payout` of razorpayx/client.py reports.
use revert_x.Prelude.{ℕ, ◌≤◌, ◌<◌, String, ◌≡◌, true, false, contains}
use revert_x.Python.{Result, ok}
use revert_x.Razorpayx.Client.{PayoutPollResult, non_terminal_statuses, classify}

-- The gateway's answers, read in order from the first up to the last that was asked for: all but
-- the last are open statuses, and the last is not, unless no attempt was left.
pub record Polled (get_payout : ℕ → Result String) (attempts : ℕ) (r : PayoutPollResult)
    : Type 0 where
  pub last : get_payout r.attempts_made ≡ ok r.razorpay_status
  pub bounded : r.attempts_made ≤ attempts
  pub earlier :
      (i : ℕ)
      → i < r.attempts_made
      → (t : String) × (get_payout i ≡ ok t) × (contains t non_terminal_statuses ≡ true)
  pub closed : r.attempts_made < attempts → contains r.razorpay_status non_terminal_statuses ≡ false
  pub class : r.classification ≡ classify r.razorpay_status

module _ (get_payout : ℕ → Result String) where
  -- The first `n` answers are open statuses.
  abbrev OpenBelow : ℕ → Type 0
  OpenBelow n =
      (i : ℕ)
      → i < n
      → (t : String) × (get_payout i ≡ ok t) × (contains t non_terminal_statuses ≡ true)

  record Ends (limit done : ℕ) (s : String) : Type 0 where
    last : get_payout done ≡ ok s
    bounded : done ≤ limit
    earlier : OpenBelow done
    closed : done < limit → contains s non_terminal_statuses ≡ false
