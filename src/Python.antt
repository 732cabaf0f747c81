-- ===== src/Python.antt =====
-- Python's exceptions as values, functions that may raise, and actions on a state that may raise.
-- What an action wrote before it raised stays written, so the state comes back with the error too.
use revert_x.Prelude.{◌≡◌, ap}

-- The exception classes that the program tells apart. `other` is any class that no handler of the
-- program names.
pub data Exc : Type 0 where
  type_error value_error key_error json_error runtime_error : Exc
  timeout connect_error connection_lost http_status : Exc
  other : Exc

pub data Result {ℓ} (A : Type ℓ) : Type ℓ where
  ok : A → Result A
  raised : Exc → Result A

abbrev pub and_then {ℓ} : {A B : Type ℓ} → Result A → (A → Result B) → Result B
and_then (ok a) f = f a
and_then (raised e) f = raised e

abbrev pub Exec {ℓ} : Type ℓ → Type ℓ → Type ℓ
Exec S A = S → Result A × S

module _ {ℓ} {S A : Type ℓ} where
  abbrev pub pure : A → Exec S A
  pure a s = (ok a, s)

  abbrev pub raise : Exc → Exec S A
  raise e s = (raised e, s)

  abbrev pub lift : Result A → Exec S A
  lift r s = (r, s)

  abbrev pub gets : (S → A) → Exec S A
  gets f s = (ok (f s), s)

  -- `try: m except Exception as exc: handler exc`
  abbrev pub catch : Exec S A → (Exc → Exec S A) → Exec S A
  catch m handler s = let (r, s') = m s in elim r [ ok a ↦ (ok a, s') | raised e ↦ handler e s' ]

abbrev pub modify {ℓ} : {S : Type ℓ} → (S → S) → Exec S (Unit {ℓ})
modify f s = (ok tt, f s)

module _ {ℓ} {S A B : Type ℓ} where
  infixl 5 ◌>>=◌ ◌>>◌
  abbrev pub ◌>>=◌ : Exec S A → (A → Exec S B) → Exec S B
  ◌>>=◌ m f s = let (r, s') = m s in elim r [ ok a ↦ f a s' | raised e ↦ (raised e, s') ]

  abbrev pub ◌>>◌ : Exec S A → Exec S B → Exec S B
  m >> k = m >>= λ _. k

  -- What follows an action that did not raise.
  pub bind-ok :
      (m : Exec S A) (k : A → Exec S B) (s : S) (a : A) → (m s).0 ≡ ok a → (m >>= k) s ≡ k a (m s).1
  bind-ok m k s a e = ap (λ x. ((λ (z : S). (x, (m s).1)) >>= k) s) e
