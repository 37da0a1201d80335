-- ===== src/Evals/Values.antt =====
-- What hydralisk/evals/terminal_bench.py uses of Python's values: their truth, `str` and `int`.
-- `print`, `read_int` and `is_positive` are Python's own conversions, where a value's kind does not
-- settle the result.
use hydralisk.Prelude.{
  String, Bool, true, false, not, Option, none, some, List, [], ◌∷◌, ◌==◌, if◌then◌else◌,
}
use hydralisk.Prelude.Int.{ℤ, pos, negsuc}
use hydralisk.Text.{is_blank}
use hydralisk.Json.{
  Json, Items, Fields, null, bool, int, float, str, arr, obj, nil, cons, end, field, get,
}

-- `print` is `str` of a value that is no text; `read_int` is `int` of a text or of a float with a
-- fraction, `none` where it raises; `is_positive` is `float(value) > 0`, `none` where `float` raises.
pub record Conversions : Type 0 where
  pub print : Json → String
  pub read_int : Json → Option ℤ
  pub is_positive : Json → Option Bool

abbrev is_nonzero : ℤ → Bool
is_nonzero (pos n) = not (n == 0)
is_nonzero (negsuc n) = true

-- `bool(value)`
abbrev pub truthy : Json → Bool
truthy null = false
truthy (bool b) = b
truthy (int z) = is_nonzero z
truthy (float none) = true
truthy (float (some z)) = is_nonzero z
truthy (str s) = not (is_blank s)
truthy (arr nil) = false
truthy (arr (cons v vs)) = true
truthy (obj end) = false
truthy (obj (field k v vs)) = true

-- `a or b`
abbrev pub either : Json → Json → Json
either a b = if truthy a then a else b

-- `fields.get(key)`
abbrev pub value_at : String → Fields → Json
value_at k fields = elim (get k fields) [ none ↦ null | some v ↦ v ]

-- `str(value)`
abbrev pub str_of : Conversions → Json → String
str_of py (str s) = s
str_of py v = py.print v

-- `int(value)`
abbrev pub int_from : Conversions → Json → Option ℤ
int_from py (bool true) = some (pos 1)
int_from py (bool false) = some (pos 0)
int_from py (int z) = some z
int_from py (float (some z)) = some z
int_from py (float none) = py.read_int (float none)
int_from py (str s) = py.read_int (str s)
int_from py _ = none

abbrev pub items : Items → List Json
items nil = []
items (cons v vs) = v ∷ items vs
