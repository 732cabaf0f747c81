-- ===== src/Values.antt =====
-- The readings of untyped values that several parts make: Python's `float` and `in`, a text field of a
-- pydantic model, and the body of an answer.
use revert_x.Prelude.{String, Bool, true, false, Option, none, some, ◌&&◌, ◌||◌, if◌then◌else◌}
use revert_x.Int.{ℤ, pos, ◌*ℤ◌, leb_ℤ}
use revert_x.Python.{Result, ok, raised, type_error, value_error, http_status, other}
use revert_x.Json.{Json, null, bool, int, float, str, arr, obj, Items, nil, cons, get, is_text}

-- `float(v)`; an amount counts hundredths.
abbrev pub to_float : (String → Option ℤ) → Json → Result ℤ
to_float parse null = raised type_error
to_float parse (bool b) = ok (if b then pos 100 else pos 0)
to_float parse (int n) = ok (n *ℤ pos 100)
to_float parse (float x) = ok x
to_float parse (str t) = elim (parse t) [ none ↦ raised value_error | some x ↦ ok x ]
to_float parse (arr xs) = raised type_error
to_float parse (obj m) = raised type_error

-- A field of type `str` of a pydantic model: any other value is a validation error.
abbrev pub to_text : Json → Result String
to_text (str t) = ok t
to_text _ = raised other

abbrev pub has_item : String → Items → Bool
has_item s nil = false
has_item s (cons v vs) = is_text s v || has_item s vs

-- `key in v`; the search of a word in a text is a parameter.
abbrev pub is_in : (String → String → Bool) → String → Json → Result Bool
is_in mentions key (obj m) = ok (elim (get key m) [ none ↦ false | some v ↦ true ])
is_in mentions key (arr vs) = ok (has_item key vs)
is_in mentions key (str t) = ok (mentions key t)
is_in mentions key _ = raised type_error

-- `raise_for_status`, and the body: only a status of 200 to 299 is a success.
abbrev pub body_of : ℤ × Json → Result Json
body_of (code, body) =
    if leb_ℤ (pos 200) code && leb_ℤ code (pos 299) then ok body else raised http_status
