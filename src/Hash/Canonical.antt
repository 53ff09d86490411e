-- ===== src/Hash/Canonical.antt =====
-- What the canonical form and the digests of hash.py depend on.
use pcs_core.Prelude.{
  String, List, ◌≡◌, refl, ap, ◌∙◌, inl, inr, Bool, true, false, elem, text_lt, text_lt_asymm,
  Bool-cases, Result, ok, err, ◌>>◌,
}
use pcs_core.Json.{
  Value, null, bool, int, float, str, arr, obj, Items, nil, cons, Fields, end, field,
}
use pcs_core.Json.Dict.{without}
use pcs_core.Hash.{
  hash_excluded_fields, insert_sorted, sort_keys, sort_items, sort_fields, canonicalize_for_hash,
  assert_number_policy,
}
use pcs_core.Hash.Policy.{HasSafeNumbers, HasSafeFields, HasSafeItems, policy_iff}

-- The first key is not smaller than k.
abbrev IsLeHead : String → Fields → Type 0
IsLeHead k end = Unit
IsLeHead k (field j v fs) = text_lt j k ≡ false

abbrev IsOrdered : Fields → Type 0
IsOrdered end = Unit
IsOrdered (field k v fs) = IsLeHead k fs × IsOrdered fs

-- A property of all values, and the absence of some keys.
abbrev IsFixed : Fields → Type 0
IsFixed end = Unit
IsFixed (field k v fs) = (sort_keys v ≡ v) × IsFixed fs

abbrev Lacks : List String → Fields → Type 0
Lacks ks end = Unit
Lacks ks (field k v fs) = (elem k ks ≡ false) × Lacks ks fs

module _ (k : String) (v : Value) where
  insert-IsLeHead :
      (i : String) (fs : Fields)
      → text_lt k i ≡ false
      → IsLeHead i fs
      → IsLeHead i (insert_sorted k v fs)
  unfolding insert_sorted
  insert-IsLeHead i end lt h = lt
  insert-IsLeHead i (field j w fs) lt h = elim (Bool-cases (text_lt j k)) [
    | inl e ↦ rw e h
    | inr e ↦ rw e lt
  ]

  insert-IsOrdered : (fs : Fields) → IsOrdered fs → IsOrdered (insert_sorted k v fs)
  unfolding insert_sorted
  insert-IsOrdered end h = (tt, tt)
  insert-IsOrdered (field j w fs) h = elim (Bool-cases (text_lt j k)) [
    | inl e ↦ rw e (insert-IsLeHead j fs (text_lt_asymm j k e) h.0, insert-IsOrdered fs h.1)
    | inr e ↦ rw e (e, h)
  ]

  insert-IsFixed : (fs : Fields) → sort_keys v ≡ v → IsFixed fs → IsFixed (insert_sorted k v fs)
  unfolding insert_sorted
  insert-IsFixed end e h = (e, tt)
  insert-IsFixed (field j w fs) e h = elim (Bool-cases (text_lt j k)) [
    | inl t ↦ rw t (h.0, insert-IsFixed fs e h.1)
    | inr t ↦ rw t (e, h)
  ]

  insert-Lacks :
      (ks : List String) (fs : Fields)
      → elem k ks ≡ false
      → Lacks ks fs
      → Lacks ks (insert_sorted k v fs)
  unfolding insert_sorted
  insert-Lacks ks end e h = (e, tt)
  insert-Lacks ks (field j w fs) e h = elim (Bool-cases (text_lt j k)) [
    | inl t ↦ rw t (h.0, insert-Lacks ks fs e h.1)
    | inr t ↦ rw t (e, h)
  ]

  insert-HasSafeFields :
      (fs : Fields) → HasSafeNumbers v → HasSafeFields fs → HasSafeFields (insert_sorted k v fs)
  unfolding insert_sorted
  insert-HasSafeFields end e h = (e, tt)
  insert-HasSafeFields (field j w fs) e h = elim (Bool-cases (text_lt j k)) [
    | inl t ↦ rw t (h.0, insert-HasSafeFields fs e h.1)
    | inr t ↦ rw t (e, h)
  ]

  insert_head : (fs : Fields) → IsLeHead k fs → insert_sorted k v fs ≡ field k v fs
  unfolding insert_sorted
  insert_head end h = refl
  insert_head (field j w fs) h = rw h

sort_fields-IsOrdered : (fs : Fields) → IsOrdered (sort_fields fs)
unfolding sort_fields
sort_fields-IsOrdered end = tt
sort_fields-IsOrdered (field k v fs) =
    insert-IsOrdered k (sort_keys v) (sort_fields fs) (sort_fields-IsOrdered fs)

sort_fields_fixed : (fs : Fields) → IsOrdered fs → IsFixed fs → sort_fields fs ≡ fs
unfolding sort_fields
sort_fields_fixed end s h = refl
sort_fields_fixed (field k v fs) s h =
    rw (h.0, sort_fields_fixed fs s.1 h.1) (insert_head k v fs s.0)

mutual
  unfolding sort_keys

  sort_keys_idem : (v : Value) → sort_keys (sort_keys v) ≡ sort_keys v
  sort_keys_idem (obj fs) =
      ap obj
        (sort_fields_fixed (sort_fields fs) (sort_fields-IsOrdered fs) (sort_fields-IsFixed fs))
  sort_keys_idem (arr vs) = ap arr (sort_items_idem vs)
  sort_keys_idem null = refl
  sort_keys_idem (bool b) = refl
  sort_keys_idem (int n) = refl
  sort_keys_idem (float r) = refl
  sort_keys_idem (str s) = refl

  sort_items_idem : (vs : Items) → sort_items (sort_items vs) ≡ sort_items vs
  sort_items_idem nil = refl
  sort_items_idem (cons v vs) = cc (sort_keys_idem v, sort_items_idem vs)

  sort_fields-IsFixed : (fs : Fields) → IsFixed (sort_fields fs)
  sort_fields-IsFixed end = tt
  sort_fields-IsFixed (field k v fs) =
      insert-IsFixed k (sort_keys v) (sort_fields fs) (sort_keys_idem v) (sort_fields-IsFixed fs)

without-Lacks : (ks : List String) (fs : Fields) → Lacks ks (without ks fs)
unfolding without
without-Lacks ks end = tt
without-Lacks ks (field k v fs) = elim (Bool-cases (elem k ks)) [
  | inl e ↦ rw e (without-Lacks ks fs)
  | inr e ↦ rw e (e, without-Lacks ks fs)
]

without_absent : (ks : List String) (fs : Fields) → Lacks ks fs → without ks fs ≡ fs
unfolding without
without_absent ks end h = refl
without_absent ks (field k v fs) h = rw (h.0, without_absent ks fs h.1)

sort_fields-Lacks : (ks : List String) (fs : Fields) → Lacks ks fs → Lacks ks (sort_fields fs)
unfolding sort_fields
sort_fields-Lacks ks end h = tt
sort_fields-Lacks ks (field k v fs) h =
    insert-Lacks k (sort_keys v) ks (sort_fields fs) h.0 (sort_fields-Lacks ks fs h.1)

mutual
  unfolding sort_keys

  sort_keys-HasSafeNumbers : (v : Value) → HasSafeNumbers v → HasSafeNumbers (sort_keys v)
  sort_keys-HasSafeNumbers (obj fs) h = sort_fields-HasSafeFields fs h
  sort_keys-HasSafeNumbers (arr vs) h = sort_items-HasSafeItems vs h
  sort_keys-HasSafeNumbers (int n) h = h
  sort_keys-HasSafeNumbers (float r) h = h
  sort_keys-HasSafeNumbers _ h = tt

  sort_items-HasSafeItems : (vs : Items) → HasSafeItems vs → HasSafeItems (sort_items vs)
  sort_items-HasSafeItems nil h = tt
  sort_items-HasSafeItems (cons v vs) h =
      (sort_keys-HasSafeNumbers v h.0, sort_items-HasSafeItems vs h.1)

  sort_fields-HasSafeFields : (fs : Fields) → HasSafeFields fs → HasSafeFields (sort_fields fs)
  sort_fields-HasSafeFields end h = tt
  sort_fields-HasSafeFields (field k v fs) h =
      insert-HasSafeFields k (sort_keys v) (sort_fields fs) (sort_keys-HasSafeNumbers v h.0)
        (sort_fields-HasSafeFields fs h.1)

guarded :
    {E : Type 0} (m : Result E (Unit {0})) (a b : Fields)
    → (m >> ok a) ≡ ok b
    → (m ≡ ok tt) × (a ≡ b)
guarded (ok u) a b h = (refl, cc)
guarded (err e) a b h = cc

pub payload : Fields → Fields
payload d = without hash_excluded_fields d

sort_payload_idem :
    (d : Fields)
    → sort_fields (without hash_excluded_fields (sort_fields (payload d))) ≡ sort_fields (payload d)
unfolding payload
sort_payload_idem d =
    let p = without hash_excluded_fields d in
    ap sort_fields (
      without_absent hash_excluded_fields (sort_fields p)
        (sort_fields-Lacks hash_excluded_fields p (without-Lacks hash_excluded_fields d)))
    ∙ sort_fields_fixed (sort_fields p) (sort_fields-IsOrdered p) (sort_fields-IsFixed p)

-- The canonical form is a fixed point: canonicalising it again, under the same policy, accepts it
-- and changes nothing.
pub canonicalize_idem :
    (enforce : Bool) (d c : Fields)
    → canonicalize_for_hash enforce d ≡ ok c
    → canonicalize_for_hash enforce c ≡ ok c
unfolding canonicalize_for_hash payload
canonicalize_idem false d c h = cc (h, sort_payload_idem d)
canonicalize_idem true d c h =
    let p = payload d in
    let (checked, e) = guarded (assert_number_policy "$" (obj p)) (sort_fields p) c h in
    let safe : HasSafeFields (sort_fields p) =
      sort_fields-HasSafeFields p ((policy_iff "$" (obj p)).0 checked) in
    let again : without hash_excluded_fields (sort_fields p) ≡ sort_fields p =
      without_absent hash_excluded_fields (sort_fields p)
        (sort_fields-Lacks hash_excluded_fields p (without-Lacks hash_excluded_fields d)) in
    rw (← e, again, (policy_iff "$" (obj (sort_fields p))).1 safe)
      (ap ok (sort_fields_fixed (sort_fields p) (sort_fields-IsOrdered p) (sort_fields-IsFixed p)))
