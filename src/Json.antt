-- ===== src/Json.antt =====
-- The values that `json.loads` gives and that a `dict[str, Any]` of the program holds. A float is
-- counted in hundredths, as every amount of money is (an amount of 12.5 is `float (pos 1250)`).
use revert_x.Prelude.{
  String, ◌≡◌, ◌↔◌, refl, Bool, true, false, Option, none, some, ◌==◌, arith, eq_iff, if◌then◌else◌,
  not,
}
use revert_x.Int.{ℤ, pos, eqb_ℤ}

mutual
  pub data Json : Type 0 where
    null : Json
    bool : Bool → Json
    int : ℤ → Json
    float : ℤ → Json
    str : String → Json
    arr : Items → Json
    obj : Fields → Json

  pub data Items : Type 0 where
    nil : Items
    cons : Json → Items → Items

  pub data Fields : Type 0 where
    end : Fields
    field : String → Json → Fields → Fields

-- `d.get(k)`
abbrev pub get : String → Fields → Option Json
get k end = none
get k (field j v m) = if j == k then some v else get k m

-- `{**d, k: v}`
abbrev pub put : String → Json → Fields → Fields
put k v end = field k v end
put k v (field j w m) = if j == k then field j v m else field j w (put k v m)

-- `isinstance(v, int)`, with the value as an integer: in Python a `bool` is an `int`.
abbrev pub as_int : Json → Option ℤ
as_int (int n) = some n
as_int (bool true) = some (pos 1)
as_int (bool false) = some (pos 0)
as_int _ = none

-- `v == "..."`
abbrev pub is_text : String → Json → Bool
is_text s (str t) = t == s
is_text s _ = false

-- Whether `hash(v)` is defined: a list or a dict raises `TypeError`.
abbrev pub is_hashable : Json → Bool
is_hashable (arr _) = false
is_hashable (obj _) = false
is_hashable _ = true

-- Python's truth value.
abbrev pub truthy : Json → Bool
truthy null = false
truthy (bool b) = b
truthy (int n) = not (eqb_ℤ n (pos 0))
truthy (float x) = not (eqb_ℤ x (pos 0))
truthy (str s) = if s == "" then false else true
truthy (arr nil) = false
truthy (arr _) = true
truthy (obj end) = false
truthy (obj _) = true

get-put :
    (k j : String) (v : Json) (m : Fields)
    → get j (put k v m) ≡ (if k == j then some v else get j m)
get-put k j v end = refl
get-put k j v (field i w m) = ground (arith, eq_iff k j, eq_iff i k, eq_iff i j, get-put k j v m)

pub is_text_iff : (s : String) (v : Json) → (is_text s v ≡ true) ↔ (v ≡ str s)
is_text_iff s null = ground arith
is_text_iff s (bool b) = ground arith
is_text_iff s (int n) = ground arith
is_text_iff s (float x) = ground arith
is_text_iff s (str t) = ground (arith, eq_iff t s)
is_text_iff s (arr xs) = ground arith
is_text_iff s (obj m) = ground arith
