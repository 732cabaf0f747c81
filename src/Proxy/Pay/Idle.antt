-- ===== src/Proxy/Pay/Idle.antt =====
-- The branch of the real payout of `/pay` leaves the answers that are stored under keys alone.
use revert_x.Prelude.{String, ◌≡◌, refl, ◌∙◌, none, arith, [], ◌∷◌}
use revert_x.Int.{ℤ, pos}
use revert_x.Json.{Json, str}
use revert_x.Python.{Result, ok, raised, Exec, lift, catch, pure, ◌>>=◌}
use revert_x.System.{System, publish_event, fields}
use revert_x.Proxy.Pay.Env.{PayEnv, PayRequest, PayoutResponse}
use revert_x.Proxy.Pay.Payout.{
  PayoutStatus, pay_by_payout, after_payout, payout_status, hold_payout, downstream_failed,
}
use revert_x.Proxy.Pay.Quiet.{answered, with_status, with_payout, attempt}

-- An action that leaves the stored answers alone, in whatever state it starts.
abbrev pub Idle : {A : Type 0} → Exec System A → Type 0
Idle m = (s : System) → (m s).1.idem ≡ s.idem

module _ {A B : Type 0} where
  bind-Idle :
      (m : Exec System A) (k : A → Exec System B) → Idle m → ((a : A) → Idle (k a)) → Idle (m >>= k)
  bind-Idle m k q f s =
      let (r, t) = m s in
      elim r as (λ x. (((λ (z : System). (x, t)) >>= k) s).1.idem ≡ s.idem) [
        | ok a ↦ f a t ∙ q s
        | raised e ↦ q s
      ]

lift-Idle : {A : Type 0} (r : Result A) → Idle (lift {S = System} r)
lift-Idle r s = refl

caught_idem :
    {A : Type 0} (p : Result A × System) (x : A)
    → (catch (λ (z : System). p) (λ e. pure x) p.1).1.idem ≡ p.1.idem
caught_idem (ok a, t) x = refl
caught_idem (raised e, t) x = refl

module _ (env : PayEnv) (req : PayRequest) (payee currency : String) (amount : ℤ) where
  hold_payout-Idle :
      (p : PayoutResponse) (st : PayoutStatus) → Idle (hold_payout req payee currency amount p st)
  unfolding hold_payout publish_event
  hold_payout-Idle p st s = refl

  downstream_failed_idem :
      (p : PayoutResponse) (s : System) → (downstream_failed env req amount p s).idem ≡ s.idem
  unfolding downstream_failed publish_event
  downstream_failed_idem p s = ground arith

  after_payout-Idle :
      (p : PayoutResponse) (st : PayoutStatus)
      → Idle (after_payout env req payee currency amount p st)
  unfolding after_payout
  after_payout-Idle p st s =
      let a = hold_payout-Idle p st s in let b = downstream_failed_idem p s in ground arith

  attempt-Idle : Idle (attempt env req payee currency amount)
  attempt-Idle =
      bind-Idle (lift env.create_payout) (with_payout env req payee currency amount)
        (lift-Idle env.create_payout)
        (λ p.
          bind-Idle (lift (payout_status env req.merchant_id p))
            (with_status env req payee currency amount p)
            (lift-Idle (payout_status env req.merchant_id p))
            (λ st.
              bind-Idle (after_payout env req payee currency amount p st)
                (answered env req payee currency amount p st) (after_payout-Idle p st)
                (λ row z. refl)))

  pub pay_by_payout-Idle : Idle (pay_by_payout env req payee currency amount)
  unfolding pay_by_payout
  pay_by_payout-Idle s =
      caught_idem (attempt env req payee currency amount s)
        (Json.obj (fields (("error", str "") ∷ [])), pos 502, none)
      ∙ attempt-Idle s
