-- ===== src/Agent/Planner/Laws.antt =====
-- What the guardrails of primary_agent/planner.py let through.
use revert_x.Prelude.{
  ℕ, zero, suc, ◌≤◌, ◌≡◌, refl, String, Option, none, some, List, [], ◌∷◌, All, length, take, arith,
  inl, inr, Bool-cases, if◌then◌else◌,
}
use revert_x.Int.{ℤ, pos, ◌*ℤ◌, ◌≤ℤ◌}
use revert_x.Python.{
  Exc, type_error, value_error, key_error, json_error, Result, ok, raised, and_then,
}
use revert_x.Json.{Json, null, bool, int, float, str, arr, obj, Fields}
use revert_x.Dict.{lookup}
use revert_x.Values.{to_float}
use revert_x.Agent.Catalog.{CatalogEntry, catalog_by_id}
use revert_x.Agent.Planner.{
  PlannedPayment, PlannerEnv, read_item, in_band, guard, checked_item, checked_items,
  validate_and_clamp, max_line_items, item_of, subscript, to_str,
}

-- The payment is for a merchant of the catalog, at half to one and a half times its usual cost.
abbrev pub IsPlausible : PlannedPayment → Type 0
IsPlausible p =
    (e : CatalogEntry) × (lookup p.merchant_id catalog_by_id ≡ some e)
    × (e.typical_cost *ℤ pos 50 ≤ℤ p.amount *ℤ pos 100)
    × (p.amount *ℤ pos 100 ≤ℤ e.typical_cost *ℤ pos 150)

-- The exceptions that the guardrails catch.
abbrev IsCaught : Exc → Type 0
IsCaught type_error = Unit
IsCaught value_error = Unit
IsCaught key_error = Unit
IsCaught json_error = Unit
IsCaught _ = ⊥

abbrev OnlyCaught {ℓ} : {A : Type ℓ} → Result A → Type 0
OnlyCaught (ok a) = Unit
OnlyCaught (raised e) = IsCaught e

and_then-OnlyCaught :
    {A B : Type 0} (r : Result A) (f : A → Result B)
    → OnlyCaught r
    → ((a : A) → OnlyCaught (f a))
    → OnlyCaught (and_then r f)
and_then-OnlyCaught (ok a) f h k = k a
and_then-OnlyCaught (raised e) f h k = h

subscript-OnlyCaught : (k : String) (m : Fields) → OnlyCaught (subscript k m)
subscript-OnlyCaught k m = ground arith

to_float-OnlyCaught : (parse : String → Option ℤ) (v : Json) → OnlyCaught (to_float parse v)
to_float-OnlyCaught parse null = tt
to_float-OnlyCaught parse (bool b) = tt
to_float-OnlyCaught parse (int n) = tt
to_float-OnlyCaught parse (float x) = tt
to_float-OnlyCaught parse (str t) = ground arith
to_float-OnlyCaught parse (arr xs) = tt
to_float-OnlyCaught parse (obj m) = tt

item_of-OnlyCaught : (env : PlannerEnv) (m : Fields) (id : String) → OnlyCaught (item_of env m id)
unfolding item_of
item_of-OnlyCaught env m id = ground arith

read_item-OnlyCaught : (env : PlannerEnv) (raw : Json) → OnlyCaught (read_item env raw)
unfolding read_item
read_item-OnlyCaught env null = tt
read_item-OnlyCaught env (bool b) = tt
read_item-OnlyCaught env (int n) = tt
read_item-OnlyCaught env (float x) = tt
read_item-OnlyCaught env (str t) = tt
read_item-OnlyCaught env (arr xs) = tt
read_item-OnlyCaught env (obj m) =
    and_then-OnlyCaught (subscript "merchant_id" m) _ (subscript-OnlyCaught "merchant_id" m) (λ id.
      and_then-OnlyCaught (subscript "amount" m) _ (subscript-OnlyCaught "amount" m) (λ a.
        and_then-OnlyCaught (to_float env.parse_float a) _ (to_float-OnlyCaught env.parse_float a)
          (λ amount.
            and_then-OnlyCaught (item_of env m (to_str env id)) _
              (item_of-OnlyCaught env m (to_str env id)) (λ item. tt))))

abbrev IsGuarded : Option PlannedPayment → Type 0
IsGuarded none = Unit
IsGuarded (some p) = IsPlausible p

guard-IsGuarded : (p : PlannedPayment) → IsGuarded (guard p)
unfolding guard
guard-IsGuarded p = go (lookup p.merchant_id catalog_by_id) refl
  where
    go :
        (o : Option CatalogEntry)
        → lookup p.merchant_id catalog_by_id ≡ o
        → IsGuarded (elim o [
          | none ↦ none
          | some e ↦ if in_band e.typical_cost p.amount then some p else none
        ])
    go none h = tt
    go (some e) h = elim (Bool-cases (in_band e.typical_cost p.amount)) [
      | inl inside ↦ rw inside (e, h, ground arith, ground arith)
      | inr outside ↦ rw outside tt
    ]

-- Checking an item drops it or keeps a plausible payment, and never raises.
abbrev GuardedItem : Result (Option PlannedPayment) → Type 0
GuardedItem (ok o) = IsGuarded o
GuardedItem (raised e) = ⊥

checked_item-Guarded : (env : PlannerEnv) (raw : Json) → GuardedItem (checked_item env raw)
unfolding checked_item
checked_item-Guarded env raw = go (read_item env raw) (read_item-OnlyCaught env raw)
  where
    go :
        (r : Result PlannedPayment)
        → OnlyCaught r
        → GuardedItem (elim r [
          | ok p ↦ ok (guard p)
          | raised x ↦ elim x [
            | key_error ↦ ok none
            | type_error ↦ ok none
            | value_error ↦ ok none
            | json_error ↦ ok none
            | e ↦ raised e
          ]
        ])
    go (ok p) h = guard-IsGuarded p
    go (raised x) h = ground arith

-- A plan of at most `n` plausible payments.
abbrev pub GuardedPlan : ℕ → Result (List PlannedPayment) → Type 0
GuardedPlan n (ok ps) = All IsPlausible ps × (length ps ≤ n)
GuardedPlan n (raised e) = ⊥

-- One item more.
GuardedPlan-cons :
    (n : ℕ) (o : Option PlannedPayment) (r : Result (List PlannedPayment))
    → IsGuarded o
    → GuardedPlan n r
    → GuardedPlan (suc n) (elim o [ none ↦ r | some p ↦ and_then r (λ ps. ok (p ∷ ps)) ])
GuardedPlan-cons n none (ok ps) g (h, k) = (h, omega arith)
GuardedPlan-cons n (some p) (ok ps) g (h, k) = ((g, h), omega arith)
GuardedPlan-cons n none (raised e) g h = absurd h
GuardedPlan-cons n (some p) (raised e) g h = absurd h

more :
    (n : ℕ) (q : Result (Option PlannedPayment)) (r : Result (List PlannedPayment))
    → GuardedItem q
    → GuardedPlan n r
    → GuardedPlan
        (suc n)
        (and_then q (λ o. elim o [ none ↦ r | some p ↦ and_then r (λ ps. ok (p ∷ ps)) ]))
more n (ok o) r g h = GuardedPlan-cons n o r g h
more n (raised e) r g h = absurd g

checked_items-Guarded :
    (env : PlannerEnv) (n : ℕ) (raws : List Json) → GuardedPlan n (checked_items env (take n raws))
unfolding checked_items
checked_items-Guarded env zero raws = (tt, omega arith)
checked_items-Guarded env (suc n) [] = (tt, omega arith)
checked_items-Guarded env (suc n) (raw ∷ raws) =
    more n (checked_item env raw) (checked_items env (take n raws)) (checked_item-Guarded env raw)
      (checked_items-Guarded env n raws)

-- Whatever list of values the language model gives, the guardrails end without an exception and
-- leave at most four payments, each for a merchant of the catalog at half to one and a half times
-- that merchant's usual cost.
pub validate_and_clamp-Guarded :
    (env : PlannerEnv) (raw_items : List Json)
    → GuardedPlan max_line_items (validate_and_clamp env raw_items)
unfolding validate_and_clamp
validate_and_clamp-Guarded env raw_items = checked_items-Guarded env max_line_items raw_items
