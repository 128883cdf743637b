-- ===== src/Json.antt =====
-- Values that `json.loads` and `Response.json` return, with the Python operations that the backend
-- applies to them: truth, `dict.get`, `str(x)`'s and `int(x)`'s arguments.

use lvyou_smsweb.Prelude.{
  ℕ, String, Bool, true, false, not, Option, none, some, ◌==◌, number_comparable, text_comparable,
  is_empty, if◌then◌else◌,
}

-- An integer: `negsuc n` is -(n + 1).
pub data ℤ : Type 0 where
  pos : ℕ → ℤ
  negsuc : ℕ → ℤ

-- `real t z` is a float by what the code reads of it: `t` what `int()` gives (none for NaN and the
-- infinities, on which it raises), `z` whether it equals 0.
mutual
  pub data Json : Type 0 where
    null : Json
    bool : Bool → Json
    num : ℤ → Json
    real : Option ℤ → Bool → Json
    str : String → Json
    arr : Items → Json
    obj : Fields → Json

  pub data Items : Type 0 where
    nil : Items
    cons : Json → Items → Items

  pub data Fields : Type 0 where
    end : Fields
    field : String → Json → Fields → Fields

-- `d.get(key)` of a dict; a missing key is none.
abbrev pub get : String → Fields → Option Json
get key end = none
get key (field k v rest) = if k == key then some v else get key rest

-- `bool(x)`
abbrev pub truthy : Json → Bool
truthy null = false
truthy (bool b) = b
truthy (num (ℤ.pos n)) = not (n == 0)
truthy (num (ℤ.negsuc n)) = true
truthy (real t z) = not z
truthy (str s) = not (is_empty s)
truthy (arr nil) = false
truthy (arr (cons v vs)) = true
truthy (obj end) = false
truthy (obj (field k v rest)) = true

-- `d.get(key)` where a missing key reads None.
abbrev pub get_or_null : String → Fields → Json
get_or_null key d = elim (get key d) [ none ↦ null | some v ↦ v ]

-- `isinstance(x, dict)`
abbrev pub as_dict : Json → Option Fields
as_dict (obj d) = some d
as_dict _ = none
