-- ===== src/Hash/Policy.antt =====
-- The number policy of hash.py against its meaning: which values it lets pass.
use pcs_core.Prelude.{ℕ, suc, String, ◌≡◌, refl, ◌↔◌, arith, Result, ok, err, ◌>>◌}
use pcs_core.Prelude.Int.{pos, negsuc, ◌≤ℤ◌}
use pcs_core.Json.{
  Value, null, bool, int, float, str, arr, obj, Items, nil, cons, Fields, end, field,
}
use pcs_core.Hash.{assert_number_policy, assert_items_policy, assert_fields_policy}

-- No float stands in the value, at any depth, and each integer lies in -(2^53 - 1) .. 2^53 - 1, the
-- numbers that an IEEE double holds exactly, written out.
abbrev mutual
  pub HasSafeNumbers : Value → Type 0
  HasSafeNumbers (int n) = (negsuc 9007199254740990 ≤ℤ n) × (n ≤ℤ pos 9007199254740991)
  HasSafeNumbers (float r) = ⊥
  HasSafeNumbers (arr vs) = HasSafeItems vs
  HasSafeNumbers (obj fs) = HasSafeFields fs
  HasSafeNumbers _ = Unit

  pub HasSafeItems : Items → Type 0
  HasSafeItems nil = Unit
  HasSafeItems (cons v vs) = HasSafeNumbers v × HasSafeItems vs

  pub HasSafeFields : Fields → Type 0
  HasSafeFields end = Unit
  HasSafeFields (field k v fs) = HasSafeNumbers v × HasSafeFields fs

>>-eq-ok : {E : Type 0} (m k : Result E (Unit {0})) → (m >> k) ≡ ok tt → (m ≡ ok tt) × (k ≡ ok tt)
>>-eq-ok (ok u) k h = (refl, h)
>>-eq-ok (err e) k h = cc

mutual
  unfolding assert_number_policy

  policy_sound :
      (path : String) (v : Value) → assert_number_policy path v ≡ ok tt → HasSafeNumbers v
  policy_sound path (int n) h = ground arith
  policy_sound path (float r) h = ground arith
  policy_sound path (arr vs) h = items_sound path 0 vs h
  policy_sound path (obj fs) h = fields_sound path fs h
  policy_sound path _ h = tt

  items_sound :
      (path : String) (i : ℕ) (vs : Items) → assert_items_policy path i vs ≡ ok tt → HasSafeItems vs
  items_sound path i nil h = tt
  items_sound path i (cons v vs) h =
      let (first, rest) = >>-eq-ok _ _ h in
      (policy_sound _ v first, items_sound path (suc i) vs rest)

  fields_sound :
      (path : String) (fs : Fields) → assert_fields_policy path fs ≡ ok tt → HasSafeFields fs
  fields_sound path end h = tt
  fields_sound path (field k v fs) h =
      let (first, rest) = >>-eq-ok _ _ h in (policy_sound _ v first, fields_sound path fs rest)

mutual
  unfolding assert_number_policy

  policy_complete :
      (path : String) (v : Value) → HasSafeNumbers v → assert_number_policy path v ≡ ok tt
  policy_complete path (int n) h = ground arith
  policy_complete path (float r) h = absurd h
  policy_complete path (arr vs) h = items_complete path 0 vs h
  policy_complete path (obj fs) h = fields_complete path fs h
  policy_complete path null h = refl
  policy_complete path (bool b) h = refl
  policy_complete path (str s) h = refl

  items_complete :
      (path : String) (i : ℕ) (vs : Items) → HasSafeItems vs → assert_items_policy path i vs ≡ ok tt
  items_complete path i nil h = refl
  items_complete path i (cons v vs) h =
      rw (policy_complete _ v h.0) (items_complete path (suc i) vs h.1)

  fields_complete :
      (path : String) (fs : Fields) → HasSafeFields fs → assert_fields_policy path fs ≡ ok tt
  fields_complete path end h = refl
  fields_complete path (field k v fs) h = rw (policy_complete _ v h.0) (fields_complete path fs h.1)

-- The number policy raises no exception exactly for the values that hold no float at any depth and
-- only integers from -(2^53 - 1) to 2^53 - 1, whatever path the caller names.
pub policy_iff :
    (path : String) (v : Value) → (assert_number_policy path v ≡ ok tt) ↔ HasSafeNumbers v
policy_iff path v = (policy_sound path v, policy_complete path v)
