-- ===== src/Authorization/Authorize/Daily.antt =====
-- The daily limit over the checks of authorization/trace.py, whatever they decide.
use revert_x.Prelude.{
  String, ◌≡◌, ◌⊎◌, inl, inr, refl, Option, none, some, arith, subst, sym, ap, ◌∙◌, eqb, ◌==◌,
  eq_iff, Bool-cases, Option-cases,
}
use revert_x.Int.{pos, ◌+ℤ◌, ◌≤ℤ◌, +ℤ_parts}
use revert_x.Python.{Result, ok, raised}
use revert_x.Dict.{Dict, lookup, insert, insert_new, update, lookup-insert, lookup-update, map_some}
use revert_x.Db.{Db, WalletRow}
use revert_x.Db.Wallets.{new_wallet, fetch_wallet, reset_wallet_spend, increment_wallet_spend}
use revert_x.System.{System}
use revert_x.Authorization.Wallet.{get_wallet, record_spend}
use revert_x.Authorization.Wallet.Loaded.{get_wallet_row}
use revert_x.Authorization.Authorize.{AuthEnv, AuthRequest, Decision, allowed, blocked, authorize}
use revert_x.Authorization.Authorize.Rules.{IsAuthorized}
use revert_x.Authorization.Authorize.Laws.{wallet_of, loaded, charged, authorize_lem}

-- Nothing is spent, or no more than the day's limit.
abbrev pub Spendable : WalletRow → Type 0
Spendable w = (w.spent_today ≤ℤ w.daily_limit) ⊎ (w.spent_today ≤ℤ pos 0)

pub record IsWithinDay (db : Db) : Type 0 where
  pub within :
      (agent : String) (w : WalletRow) → lookup agent db.agent_wallet ≡ some w → Spendable w

-- The row of an agent, if it is there, within the day's limit.
abbrev Fine : Option WalletRow → Type 0
Fine none = Unit
Fine (some w) = Spendable w

abbrev Rows : Dict WalletRow → Type 0
Rows m = (agent : String) → Fine (lookup agent m)

Rows-of : (db : Db) → IsWithinDay db → Rows db.agent_wallet
Rows-of db h agent = elim (Option-cases (lookup agent db.agent_wallet)) [
  | inl e ↦ rw e tt
  | inr (w, e) ↦ rw e (h.within agent w e)
]

of_Rows : (db : Db) → Rows db.agent_wallet → IsWithinDay db
of_Rows db f = record { within = λ agent w e. subst Fine e (f agent) }

allowed_or_not :
    (req : AuthRequest) (r : Result Decision) (db : Db) → (r ≡ ok allowed) ⊎ (charged req r db ≡ db)
allowed_or_not req (ok allowed) db = inl refl
allowed_or_not req (ok (blocked x)) db = inr refl
allowed_or_not req (raised e) db = inr refl

some-injective : {v w : WalletRow} → some v ≡ some w → v ≡ w
some-injective e = ground arith

Fine-map_some :
    (f : WalletRow → WalletRow) (o : Option WalletRow)
    → ((w : WalletRow) → o ≡ some w → Spendable w → Spendable (f w))
    → Fine o
    → Fine (map_some f o)
Fine-map_some f none h p = tt
Fine-map_some f (some w) h p = h w refl p

Rows-insert :
    (k : String) (v : WalletRow) (m : Dict WalletRow) → Spendable v → Rows m → Rows (insert k v m)
Rows-insert k v m p h j = elim (Bool-cases (k == j)) [
  | inl y ↦ rw (lookup-insert k j v m, y) p
  | inr n ↦ rw (lookup-insert k j v m, n) (h j)
]

Rows-insert_new :
    (k : String) (v : WalletRow) (m : Dict WalletRow)
    → Spendable v
    → Rows m
    → Rows (insert_new k v m)
Rows-insert_new k v m p h = elim (Option-cases (lookup k m)) [
  | inl e ↦ rw e (Rows-insert k v m p h)
  | inr (w, e) ↦ rw e h
]

Rows-update :
    (k : String) (f : WalletRow → WalletRow) (m : Dict WalletRow)
    → ((w : WalletRow) → lookup k m ≡ some w → Spendable w → Spendable (f w))
    → Rows m
    → Rows (update k f m)
Rows-update k f m g h j = elim (Bool-cases (k == j)) [
  | inl y ↦
      let same : k ≡ j = (eq_iff k j).0 y in
      rw (lookup-update k j f m, y)
        (Fine-map_some f (lookup j m) (λ w e. g w (ap (λ i. lookup i m) same ∙ e)) (h j))
  | inr n ↦ rw (lookup-update k j f m, n) (h j)
]

loaded-Rows :
    (env : AuthEnv) (req : AuthRequest) (db : Db)
    → Rows db.agent_wallet
    → Rows (loaded env req db).agent_wallet
unfolding get_wallet fetch_wallet reset_wallet_spend
loaded-Rows env req db h =
    let fetched = fetch_wallet env.defaults env.today req.agent_id db in
    let fresh =
      Rows-insert_new req.agent_id (new_wallet env.defaults env.today) db.agent_wallet
        (unfold new_wallet in inr (ground arith)) h in
    elim (Bool-cases (eqb fetched.0.last_reset env.today)) [
      | inl y ↦ rw y fresh
      | inr n ↦
          rw n
            (Rows-update req.agent_id _ fetched.1.agent_wallet (λ w e p. inr (ground arith)) fresh)
    ]

-- The row that the checks see is the one that is loaded.
loaded-wallet_of :
    (env : AuthEnv) (req : AuthRequest) (db : Db)
    → lookup req.agent_id (loaded env req db).agent_wallet ≡ some (wallet_of env req db)
loaded-wallet_of env req db = get_wallet_row env.defaults env.today req.agent_id db

charged_row :
    (env : AuthEnv) (req : AuthRequest) (w : WalletRow)
    → IsAuthorized env req w
    → Spendable w
    → Spendable (record w { spent_today = w.spent_today +ℤ req.amount })
charged_row env req w ok_row p =
    let d = ok_row.daily in
    ground (arith, +ℤ_parts req.amount w.spent_today, +ℤ_parts w.spent_today req.amount)

-- If every wallet row keeps what it has spent within its daily limit, or not positive, then so does
-- every row after the checks, whatever they decide and also if they raise.
pub authorize-IsWithinDay :
    (env : AuthEnv) (req : AuthRequest) (s : System)
    → IsWithinDay s.db
    → IsWithinDay (authorize env req s).1.db
unfolding record_spend increment_wallet_spend
authorize-IsWithinDay env req s h =
    let rows = loaded-Rows env req s.db (Rows-of s.db h) in
    let (decides, written, frame) = authorize_lem env req s in
    elim (allowed_or_not req (authorize env req s).0 (loaded env req s.db)) [
      | inl y ↦ of_Rows _ (
          rw (written, y)
            (Rows-update req.agent_id _ (loaded env req s.db).agent_wallet
              (λ w e p.
                let same = some-injective (sym (loaded-wallet_of env req s.db) ∙ e) in
                charged_row env req w (subst (IsAuthorized env req) same (decides.0 y)) p)
              rows))
      | inr n ↦ of_Rows _ (rw (written, n) rows)
    ]
