-- ===== src/Hash/Same.antt =====
-- Two JSON values that differ only in the order of dictionary entries have one canonical text.
use mathlib.Core.Option
use pcs_core.Prelude.{String, ◌≡◌, refl, ap, sym, ◌∙◌, Option, none, some}
use pcs_core.Json.{Value, arr, obj, Items, nil, cons, Fields}
use pcs_core.Json.Dict.{lookup}
use pcs_core.Hash.{sort_keys, sort_items, sort_fields}
use pcs_core.Hash.Sorting.{HasUniqueKeys, lookup-sort_fields, sort_fields-IsSorted, IsSorted-unique}

-- Equal as JSON: the entries of a dictionary are found by key, whatever their order.
mutual
  pub data SameJson : Value → Value → Type 0 where
    same : (v : Value) → SameJson v v
    same_arr : {a b : Items} → SameItems a b → SameJson (arr a) (arr b)
    same_obj :
        {a b : Fields}
        → HasUniqueKeys a
        → HasUniqueKeys b
        → ((k : String) → SameEntry (lookup k a) (lookup k b))
        → SameJson (obj a) (obj b)

  pub data SameItems : Items → Items → Type 0 where
    same_nil : SameItems nil nil
    same_cons :
        {v w : Value} {a b : Items} → SameJson v w → SameItems a b → SameItems (cons v a) (cons w b)

  pub data SameEntry : Option Value → Option Value → Type 0 where
    both_absent : SameEntry none none
    both_present : {v w : Value} → SameJson v w → SameEntry (some v) (some w)

mutual
  unfolding sort_keys

  pub sort_keys-Same : {v w : Value} → SameJson v w → sort_keys v ≡ sort_keys w
  sort_keys-Same (same v) = refl
  sort_keys-Same (same_arr h) = ap arr (sort_items-Same h)
  sort_keys-Same (same_obj {a} {b} ha hb h) = ap obj (
      IsSorted-unique (sort_fields a) (sort_fields b) (sort_fields-IsSorted a ha)
        (sort_fields-IsSorted b hb)
        (λ k. lookup-sort_fields k a ∙ sort_entry-Same (h k) ∙ sym (lookup-sort_fields k b)))

  pub sort_items-Same : {a b : Items} → SameItems a b → sort_items a ≡ sort_items b
  sort_items-Same same_nil = refl
  sort_items-Same (same_cons h t) = cc (sort_keys-Same h, sort_items-Same t)

  pub sort_entry-Same :
      {o p : Option Value} → SameEntry o p → Option.map sort_keys o ≡ Option.map sort_keys p
  sort_entry-Same both_absent = refl
  sort_entry-Same (both_present h) = ap some (sort_keys-Same h)
