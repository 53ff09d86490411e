-- ===== src/Json.antt =====
-- The values that json.loads returns and the operations of Python on them that the validators use:
-- truth values, isinstance tests, dictionary reads and writes.
pub mod Dict
pub mod Text
pub mod Equal
use pcs_core.Prelude.{
  ℕ, String, List, [], ◌∷◌, Option, none, some, Bool, true, false, not, ◌&&◌, ◌||◌, ◌==◌,
  if◌then◌else◌, eqb,
}
use pcs_core.Prelude.Int.{ℤ, pos, negsuc}

-- A float is carried as the text that repr() gives for it: json.dumps and str() print that text.
-- A dictionary is the sequence of its entries in insertion order.
mutual
  pub data Value : Type 0 where
    null : Value
    bool : Bool → Value
    int : ℤ → Value
    float : String → Value
    str : String → Value
    obj : Fields → Value
    arr : Items → Value

  pub data Fields : Type 0 where
    end : Fields
    field : String → Value → Fields → Fields

  pub data Items : Type 0 where
    nil : Items
    cons : Value → Items → Items

abbrev pub to_list : Items → List Value
to_list nil = []
to_list (cons v vs) = v ∷ to_list vs

abbrev pub of_list : List Value → Items
of_list [] = nil
of_list (v ∷ vs) = cons v (of_list vs)

abbrev pub texts : List String → Items
texts [] = nil
texts (s ∷ ss) = cons (str s) (texts ss)

abbrev is_zero : ℤ → Bool
is_zero (pos n) = eqb n 0
is_zero (negsuc n) = false

-- bool(value)
abbrev pub truthy : Value → Bool
truthy null = false
truthy (bool b) = b
truthy (int n) = not (is_zero n)
truthy (float r) = not (r == "0.0" || r == "-0.0")
truthy (str s) = not (s == "")
truthy (arr nil) = false
truthy (arr (cons v vs)) = true
truthy (obj end) = false
truthy (obj (field k v fs)) = true

-- isinstance(value, dict), list, str, bool; a bool is an int as well.
abbrev pub as_dict : Value → Option Fields
as_dict (obj fs) = some fs
as_dict _ = none

abbrev pub as_list : Value → Option (List Value)
as_list (arr vs) = some (to_list vs)
as_list _ = none

abbrev pub as_str : Value → Option String
as_str (str s) = some s
as_str _ = none

abbrev pub as_int : Value → Option ℤ
as_int (int n) = some n
as_int (bool true) = some (pos 1)
as_int (bool false) = some (pos 0)
as_int _ = none
