-- ===== src/Json/Equal.antt =====
-- The operator == of Python on the values of json.loads: a bool equals the int it stands for, and the
-- order of a dictionary does not count.
use pcs_core.Prelude.{
  ℕ, suc, String, List, ◌≡◌, ap, none, some, Bool, true, false, not, ◌&&◌, ◌||◌, ◌==◌, eqb, any,
  eq_iff,
}
use pcs_core.Prelude.Int.{ℤ, pos, eqb_ℤ}
use pcs_core.Json.{
  Value, null, bool, int, float, str, arr, obj, Items, nil, cons, Fields, end, field,
}
use pcs_core.Json.Dict.{lookup}
use pcs_core.Host.{Host}

-- int(b)
abbrev as_number : Bool → ℤ
as_number true = pos 1
as_number false = pos 0

-- Two floats by their repr(), which tells all but the two zeros apart; nan equals nothing. Python
-- takes one nan object inside two containers for equal to itself, which a value does not show.
abbrev floats_equal : String → String → Bool
floats_equal a b =
    not (a == "nan") && (a == b || a == "0.0" && b == "-0.0" || a == "-0.0" && b == "0.0")

abbrev size : Fields → ℕ
size end = 0
size (field k v fs) = suc (size fs)

module _ ⦃py : Host⦄ where
  unfoldable mutual
    unfolding lookup

    pub values_equal : Value → Value → Bool
    values_equal null null = true
    values_equal (bool a) (bool b) = eqb_ℤ (as_number a) (as_number b)
    values_equal (bool a) (int b) = eqb_ℤ (as_number a) b
    values_equal (int a) (bool b) = eqb_ℤ a (as_number b)
    values_equal (int a) (int b) = eqb_ℤ a b
    values_equal (int a) (float r) = py.int_equals_float a r
    values_equal (float r) (int b) = py.int_equals_float b r
    values_equal (bool a) (float r) = py.int_equals_float (as_number a) r
    values_equal (float r) (bool b) = py.int_equals_float (as_number b) r
    values_equal (float r) (float q) = floats_equal r q
    values_equal (str s) (str t) = s == t
    values_equal (arr vs) (arr ws) = items_equal vs ws
    values_equal (obj fs) (obj gs) = eqb (size fs) (size gs) && entries_equal fs gs
    values_equal _ _ = false

    pub items_equal : Items → Items → Bool
    items_equal nil nil = true
    items_equal (cons v vs) (cons w ws) = values_equal v w && items_equal vs ws
    items_equal _ _ = false

    -- Every entry of the one has an equal entry in the other.
    pub entries_equal : Fields → Fields → Bool
    entries_equal end gs = true
    entries_equal (field k v fs) gs =
        elim (lookup k gs) [ none ↦ false | some w ↦ values_equal v w ] && entries_equal fs gs

  -- `v in vs`
  unfoldable pub among : Value → List Value → Bool
  among v vs = any (λ w. values_equal w v) vs

  pub texts_equal : (v : Value) (s : String) → values_equal v (str s) ≡ true → v ≡ str s
  unfolding values_equal
  texts_equal (str t) s h = ap str ((eq_iff t s).0 h)
  texts_equal (_) s h = cc
