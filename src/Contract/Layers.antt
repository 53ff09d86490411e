-- ===== src/Contract/Layers.antt =====
-- What a contract whose layers are valid says of its fields.
use pcs_core.Prelude.{
  String, [], ◌∷◌, ◌++◌, ◌≡◌, refl, ap, subst, ◌∙◌, Option, none, some, Bool, true, false, not,
  ◌&&◌, ◌==◌, arith, eq_iff, if◌then◌else◌, map, when, elem, Bool-cases, inl, inr,
}
use pcs_core.Json.{Value, null, str, obj, Fields, end, field, as_dict}
use pcs_core.Json.Dict.{get}
use pcs_core.Runtime.Chain.Meaning.{nil_of_append}
use pcs_core.Contract.{
  Layers, layer_of, set_layer, or_runtime, default_layer, default_field_layers, semantics_layers,
  unknown_layer, layer_mismatch, canonical_issues, is_some, entry_issues, merge_layers,
  merge_explicit, with_default, contract_fields_in_use, default_semantics_layer_for_contract,
  resolve_semantics_layer, issues_of, validate_semantics_layer, layer_or_default,
  field_semantics_layer,
}

layer_of-set_layer :
    (k j v : String) (ls : Layers)
    → layer_of j (set_layer k v ls) ≡ (if k == j then some v else layer_of j ls)
unfolding layer_of set_layer
layer_of-set_layer k j v [] = refl
layer_of-set_layer k j v ((i, w) ∷ ls) =
    ground (arith, eq_iff k j, eq_iff i k, eq_iff i j, layer_of-set_layer k j v ls)

skipped : (b : Bool) (x y z : Option String) → b ≡ false → (if b then x else y) ≡ z → y ≡ z
skipped true x y z e h = cc
skipped false x y z e h = h

layer_of-with_default :
    (k section : String) (ls : Layers)
    → layer_of k ls ≡ some section
    → layer_of k (map with_default ls) ≡ some (default_layer k)
unfolding layer_of
layer_of-with_default k section [] h = cc
layer_of-with_default k section ((j, s) ∷ ls) h = elim (Bool-cases (j == k)) [
  | inl e ↦ rw (e) (ap (λ i. some (default_layer i)) ((eq_iff j k).0 e))
  | inr e ↦ rw (e) (
      layer_of-with_default k section ls
        (skipped (j == k) (some s) (layer_of k ls) (some section) e h))
]

agreed : {A : Type 0} (b : Bool) (x : A) → (if (true && not b) then x ∷ [] else []) ≡ [] → b ≡ true
agreed true x h = refl
agreed false x h = cc

canonical_match :
    (k v : String) (o : Option String) → canonical_issues true k v o ≡ [] → v ≡ or_runtime o
canonical_match k v none h = cc
canonical_match k v (some c) h = (eq_iff v c).0 (agreed (v == c) (layer_mismatch k v c) h)

-- Entries without an issue leave the layer of an active field as it is by default.
merge_layers-default :
    (active layers : Layers) (name section : String) (fs : Fields)
    → layer_of name active ≡ some section
    → entry_issues active fs ≡ []
    → layer_of name layers ≡ some (default_layer name)
    → layer_of name (merge_layers layers fs) ≡ some (default_layer name)
unfolding merge_layers entry_issues default_layer
merge_layers-default active layers name section end used clean at = at
merge_layers-default active layers name section (field k (str v) rest) used clean at =
    let own =
      canonical_issues (is_some (layer_of k active)) k v (layer_of k default_field_layers) in
    let (both, after) =
      nil_of_append (when (not (elem v semantics_layers)) (unknown_layer k v) ++ own) _ clean in
    let (_, here) =
      nil_of_append (when (not (elem v semantics_layers)) (unknown_layer k v)) own both in
    merge_layers-default active (set_layer k v layers) name section rest used after (
      layer_of-set_layer k name v layers ∙ elim (Bool-cases (k == name)) [
        | inl e ↦
            let p = (eq_iff k name).0 e in
            let active_here = ap is_some (ap (λ i. layer_of i active) p ∙ used) in
            rw (e) (
              ap some (
                canonical_match k v (layer_of k default_field_layers) (
                  subst (λ b. canonical_issues b k v (layer_of k default_field_layers) ≡ [])
                    active_here here)
                ∙ ap default_layer p))
        | inr e ↦ rw (e) at
      ])
merge_layers-default active layers name section (field k _ rest) used clean at = cc

value_of :
    (name : String) (o : Option String) (layer : String)
    → o ≡ some layer
    → layer_or_default name o ≡ layer
value_of name none layer h = cc
value_of name (some l) layer h = cc

resolved-default :
    (contract : Fields) (name section : String) (v : Value)
    → layer_of name (contract_fields_in_use contract) ≡ some section
    → issues_of contract v ≡ []
    → layer_of name (merge_explicit (default_semantics_layer_for_contract contract) (as_dict v))
      ≡ some (default_layer name)
unfolding default_semantics_layer_for_contract
resolved-default contract name section null used clean =
    layer_of-with_default name section (contract_fields_in_use contract) used
resolved-default contract name section (obj explicit) used clean =
    let (entries, _) =
      nil_of_append (entry_issues (contract_fields_in_use contract) explicit) _ clean in
    merge_layers-default (contract_fields_in_use contract) _ name section explicit used entries
      (layer_of-with_default name section (contract_fields_in_use contract) used)
resolved-default contract name section _ used clean = cc

-- In a contract without a layer issue, the layer of each field that the contract uses is the default
-- one, whatever layers it states.
pub validated_layer-default :
    (contract : Fields) (name section : String)
    → validate_semantics_layer contract ≡ []
    → layer_of name (contract_fields_in_use contract) ≡ some section
    → field_semantics_layer contract name ≡ default_layer name
unfolding validate_semantics_layer field_semantics_layer resolve_semantics_layer
validated_layer-default contract name section clean used =
    value_of name _ _
      (resolved-default contract name section (get "semantics_layer" contract) used clean)
