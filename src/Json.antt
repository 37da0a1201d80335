-- ===== src/Json.antt =====
-- The values of Python's `json` module that the services read.
-- A dict is an association list: `get` finds the first entry of a key, and `put` writes there, or at
-- the end. Of a float the program asks only whether it is integral and which integer it then is, so
-- it is that integer, or `none`.
use hydralisk.Prelude.{
  String, Bool, Option, none, some, ◌≡◌, refl, arith, str_eq, eq_iff, if◌then◌else◌,
}
use hydralisk.Prelude.Int.{ℤ}

mutual
  pub data Json : Type 0 where
    null : Json
    bool : Bool → Json
    int : ℤ → Json
    float : Option ℤ → Json
    str : String → Json
    arr : Items → Json
    obj : Fields → Json

  pub data Items : Type 0 where
    nil : Items
    cons : Json → Items → Items

  pub data Fields : Type 0 where
    end : Fields
    field : String → Json → Fields → Fields

-- `payload.get(key)` before its default.
unfoldable pub get : String → Fields → Option Json
get k end = none
get k (field j v rest) = if str_eq j k then some v else get k rest

-- `payload[key] = value`
unfoldable pub put : String → Json → Fields → Fields
put k v end = field k v end
put k v (field j w rest) = if str_eq j k then field j v rest else field j w (put k v rest)

-- `payload.setdefault(key, value)`
unfoldable pub set_default : String → Json → Fields → Fields
set_default k v fields = elim (get k fields) [ none ↦ put k v fields | some old ↦ fields ]

pub get-put :
    (k j : String) (v : Json) (fields : Fields)
    → get j (put k v fields) ≡ (if str_eq k j then some v else get j fields)
unfolding get put
get-put k j v end = refl
get-put k j v (field i w rest) =
    ground (arith, eq_iff k j, eq_iff i k, eq_iff i j, get-put k j v rest)

pub get-set_default :
    (k j : String) (v : Json) (fields : Fields)
    → get j (set_default k v fields) ≡ (
        if str_eq k j
        then elim (get k fields) [ none ↦ some v | some old ↦ some old ]
        else get j fields)
unfolding set_default
get-set_default k j v fields = ground (arith, get-put k j v fields, eq_iff k j)
