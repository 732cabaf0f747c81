-- ===== src/Proxy/Pay/Quiet.antt =====
-- The parts of `/pay` that write neither a budget nor a ledger row: the checks, and the branch of
-- the real payout.
use revert_x.Prelude.{subst, sym, inl, inr, ℕ, String, ◌≡◌, refl, ◌∙◌, Option, none, [], ◌∷◌, arith}
use revert_x.Int.{ℤ, pos}
use revert_x.Python.{Result, ok, raised, Exec, lift, catch, pure, ◌>>=◌}
use revert_x.Json.{Json, str}
use revert_x.Db.{Db}
use revert_x.Db.Payouts.{create_pending_payout}
use revert_x.System.{System, publish_event, fields}
use revert_x.Authorization.Wallet.{get_wallet, record_spend}
use revert_x.Authorization.Authorize.{AuthEnv, AuthRequest, authorize}
use revert_x.Authorization.Authorize.Laws.{authorize-written, loaded}
use revert_x.Db.Wallets.{fetch_wallet, reset_wallet_spend, increment_wallet_spend}
use revert_x.Proxy.Pay.Env.{PayEnv, PayRequest, PayoutResponse}
use revert_x.Proxy.Pay.Payout.{
  PayoutStatus, pay_by_payout, after_payout, payout_status, payout_data, hold_payout,
  downstream_failed,
}

-- No budget and no ledger row differs.
abbrev pub Untouched : Db → Db → Type 0
Untouched db db' = (db'.workflows ≡ db.workflows) × (db'.transaction_steps ≡ db.transaction_steps)

pub trans : (a b c : Db) → Untouched a b → Untouched b c → Untouched a c
trans a b c (p, q) (p', q') = (p' ∙ p, q' ∙ q)

-- An action that leaves the budgets and the ledger alone, in whatever state it starts.
abbrev pub Quiet : {A : Type 0} → Exec System A → Type 0
Quiet m = (s : System) → Untouched s.db (m s).1.db

module _ {A B : Type 0} where
  bind-Quiet :
      (m : Exec System A) (k : A → Exec System B)
      → Quiet m
      → ((a : A) → Quiet (k a))
      → Quiet (m >>= k)
  bind-Quiet m k q f s =
      let (r, t) = m s in
      elim r as (λ x. Untouched s.db ((((λ (z : System). (x, t)) >>= k) s).1).db) [
        | ok a ↦ trans s.db t.db (k a t).1.db (q s) (f a t)
        | raised e ↦ q s
      ]

hold_payout-Quiet :
    (req : PayRequest) (payee currency : String) (amount : ℤ) (p : PayoutResponse)
    (st : PayoutStatus)
    → Quiet (hold_payout req payee currency amount p st)
unfolding hold_payout create_pending_payout publish_event
hold_payout-Quiet req payee currency amount p st s = (refl, refl)

downstream_failed-Quiet :
    (env : PayEnv) (req : PayRequest) (amount : ℤ) (p : PayoutResponse) (s : System)
    → Untouched s.db (downstream_failed env req amount p s).db
unfolding downstream_failed publish_event
downstream_failed-Quiet env req amount p s = ground arith

after_payout-Quiet :
    (env : PayEnv) (req : PayRequest) (payee currency : String) (amount : ℤ) (p : PayoutResponse)
    (st : PayoutStatus)
    → Quiet (after_payout env req payee currency amount p st)
unfolding after_payout
after_payout-Quiet env req payee currency amount p st s =
    let a = hold_payout-Quiet req payee currency amount p st s in
    let b = downstream_failed-Quiet env req amount p s in ground arith

lift-Quiet : {A : Type 0} (r : Result A) → Quiet (lift {S = System} r)
lift-Quiet r s = (refl, refl)

catch_at :
    {A : Type 0} (p : Result A × System) (x : A) (db : Db)
    → Untouched db p.1.db
    → let q = catch (λ (z : System). p) (λ e. pure x) p.1 in
      (a : A) × (q.0 ≡ ok a) × Untouched db q.1.db
catch_at (ok a, t) x db u = (a, refl, u)
catch_at (raised e, t) x db u = (x, refl, u)

module _ (env : PayEnv) (req : PayRequest) (payee currency : String) (amount : ℤ) where
  abbrev pub answered : PayoutResponse → PayoutStatus → Option ℕ → Exec System (Json × ℤ × Option ℕ)
  answered p st row = pure (Json.obj (payout_data payee p st), pos 200, row)

  abbrev pub with_status : PayoutResponse → PayoutStatus → Exec System (Json × ℤ × Option ℕ)
  with_status p st = after_payout env req payee currency amount p st >>= answered p st

  abbrev pub with_payout : PayoutResponse → Exec System (Json × ℤ × Option ℕ)
  with_payout p = lift (payout_status env req.merchant_id p) >>= with_status p

  abbrev pub attempt : Exec System (Json × ℤ × Option ℕ)
  attempt = lift env.create_payout >>= with_payout

  attempt-Quiet : Quiet attempt
  attempt-Quiet =
      bind-Quiet (lift env.create_payout) with_payout (lift-Quiet env.create_payout) (λ p.
        bind-Quiet (lift (payout_status env req.merchant_id p)) (with_status p)
          (lift-Quiet (payout_status env req.merchant_id p))
          (λ st.
            bind-Quiet (after_payout env req payee currency amount p st) (answered p st)
              (after_payout-Quiet env req payee currency amount p st) (λ row z. (refl, refl))))

  -- The branch of the real payout always has an answer for the rest of the handler.
  pub pay_by_payout-Quiet :
      (s : System)
      → let (r, t) = pay_by_payout env req payee currency amount s in
        (m : Json × ℤ × Option ℕ) × (r ≡ ok m) × Untouched s.db t.db
  unfolding pay_by_payout
  pay_by_payout-Quiet s =
      catch_at (attempt s) (Json.obj (fields (("error", str "") ∷ [])), pos 502, none) s.db
        (attempt-Quiet s)

get_wallet-Quiet :
    (env : AuthEnv) (agent : String) (db : Db)
    → Untouched db (get_wallet env.defaults env.today agent db).1
unfolding get_wallet fetch_wallet reset_wallet_spend
get_wallet-Quiet env agent db = ground arith

charge_wallet-Quiet :
    (agent : String) (amount : ℤ) (db : Db) → Untouched db (record_spend agent amount db)
unfolding record_spend increment_wallet_spend
charge_wallet-Quiet agent amount db = (refl, refl)

pub authorize-Quiet : (env : AuthEnv) (req : AuthRequest) → Quiet (authorize env req)
authorize-Quiet env req s =
    let a = get_wallet-Quiet env req.agent_id s.db in
    let b = charge_wallet-Quiet req.agent_id req.amount (loaded env req s.db) in
    elim (authorize-written env req s) [
      | inl h ↦ subst (Untouched s.db) (sym h) (
          trans s.db (loaded env req s.db)
            (record_spend req.agent_id req.amount (loaded env req s.db)) a b)
      | inr h ↦ subst (Untouched s.db) (sym h) a
    ]
