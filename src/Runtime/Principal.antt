-- ===== src/Runtime/Principal.antt =====
-- Principals in pf_core_runtime.py: the expansion of roles into capability ids, the normal form of a
-- principal, and the authority of a handoff.
pub mod Expansion
pub mod Normal
use mathlib.Core.List.{foldl}
use pcs_core.Prelude.{
  ℕ, suc, String, List, [], ◌∷◌, ◌++◌, map, Option, none, some, Bool, true, false, not, ◌&&◌, ◌||◌,
  ◌==◌, starts_with, if◌then◌else◌, elem, all, Result, ok, err, ◌>>=◌, ◌>>◌, raise_if,
}
use pcs_core.Json.{
  Value, null, str, arr, obj, Fields, end, field, to_list, texts, as_dict, as_list, as_str,
}
use pcs_core.Json.Dict.{lookup, get, put, keys}
use pcs_core.Json.Text.{str_of, text_or, is_blank, indexed}
use pcs_core.Host.{Host}
use pcs_core.Catalog.{role_capabilities}
use pcs_core.Runtime.{RuntimeError, missing_principal, handoff_authority_expansion, type_error}

abbrev char_texts : String → List Value
char_texts String.[] = []
char_texts (String.◌∷◌ c s) = str (String.◌∷◌ c String.[]) ∷ char_texts s

-- `for x in value`: a text gives its characters, a dictionary its keys.
unfoldable pub iterate : Value → Result RuntimeError (List Value)
unfolding keys
iterate (arr vs) = ok (to_list vs)
iterate (str s) = ok (char_texts s)
iterate (obj fs) = ok (map str (keys fs))
iterate _ = err type_error

-- `for x in d.get(k, [])`
unfoldable pub iterate_key : String → Fields → Result RuntimeError (List Value)
unfolding iterate
iterate_key k d = elim (lookup k d) [ none ↦ ok [] | some v ↦ iterate v ]

-- `if c not in ids: ids.append(c)`
unfoldable pub add_new : List String → String → List String
add_new ids c = if elem c ids then ids else ids ++ c ∷ []

abbrev pub add_granted : List String → String → Option (List String) → List String
add_granted ids role (some caps) = foldl add_new ids caps
add_granted ids role none = if starts_with role "cap:" then add_new ids role else ids

-- The loop body for one role.
unfoldable pub add_role : List String → String → List String
unfolding add_new
add_role ids role = add_granted ids role (role_capabilities role)

unfoldable pub expand_ids : List String → List String → List String
unfolding add_role
expand_ids roles caps = foldl add_new (foldl add_role [] roles) caps

-- Equality of set(xs) and set(ys).
unfoldable pub same_set : List String → List String → Bool
same_set xs ys = all (λ x. elem x ys) xs && all (λ y. elem y xs) ys

module _ ⦃py : Host⦄ where
  unfoldable pub texts_of_key : String → Fields → Result RuntimeError (List String)
  unfolding iterate_key
  texts_of_key k d = do vs ← iterate_key k d; ok (map str_of vs)

  unfoldable pub expand_principal_capabilities : Fields → Result RuntimeError (List String)
  unfolding texts_of_key expand_ids
  expand_principal_capabilities p = do
    roles ← texts_of_key "roles" p
    caps ← texts_of_key "capabilities" p
    ok (expand_ids roles caps)

  unfoldable pub principal_capabilities_explicit : Fields → Result RuntimeError Bool
  unfolding expand_principal_capabilities same_set
  principal_capabilities_explicit p = do
    explicit ← texts_of_key "capabilities" p
    ids ← expand_principal_capabilities p
    ok (same_set explicit ids)

  -- The normal form before its capabilities are expanded.
  abbrev principal_record : String → String → String → List String → List String → Fields
  principal_record id kind tenant roles caps = field "principal_id" (str id) (
      field "principal_kind" (str kind) (
        field "tenant" (str tenant)
          (field "roles" (arr (texts roles)) (field "capabilities" (arr (texts caps)) end))))

  abbrev blank_text : Value → Option String
  blank_text (str s) = if is_blank s then none else some s
  blank_text _ = none

  unfoldable pub normalize_principal : String → String → Fields → Result RuntimeError Fields
  unfolding texts_of_key expand_principal_capabilities
  normalize_principal path id p = do
    roles ← texts_of_key "roles" p
    caps ← texts_of_key "capabilities" p
    let base =
        principal_record id (text_or "agent" (get "principal_kind" p)) (text_or "" (get "tenant" p))
          roles caps
    ids ← expand_principal_capabilities base
    ok (put "capabilities" (arr (texts ids)) base)

  abbrev validate_principal_fields : String → Fields → Result RuntimeError Fields
  validate_principal_fields path p = elim (blank_text (get "principal_id" p)) [
    | none ↦ err (missing_principal "principal_id required" path)
    | some id ↦ normalize_principal path id p
  ]

  -- _validate_principal
  unfoldable pub validate_principal : String → Value → Result RuntimeError Fields
  unfolding normalize_principal
  validate_principal path (obj p) = validate_principal_fields path p
  validate_principal path _ = err (missing_principal "principal required" path)

  -- The loop of validate_handoff_authority over the delegated capabilities.
  unfoldable pub check_delegated : List String → ℕ → List Value → Result RuntimeError (Unit {0})
  check_delegated allowed index [] = ok tt
  check_delegated allowed index (obj cap ∷ rest) =
      let id = text_or "" (get "capability_id" cap) in
      raise_if (not (id == "") && not (elem id allowed))
        (handoff_authority_expansion id (indexed "delegated_capabilities" index))
      >> check_delegated allowed (suc index) rest
  check_delegated allowed index (_ ∷ rest) = check_delegated allowed (suc index) rest

  abbrev delegated_within : List String → Option (List Value) → Result RuntimeError (Unit {0})
  delegated_within allowed none =
      err (handoff_authority_expansion "<missing>" "delegated_capabilities")
  delegated_within allowed (some caps) = check_delegated allowed 0 caps

  abbrev authority_of : Option Fields → Value → Result RuntimeError (Unit {0})
  authority_of none delegated = err (missing_principal "principal required" "from_principal")
  authority_of (some src) delegated = do
    allowed ← expand_principal_capabilities src
    delegated_within allowed (as_list delegated)

  unfoldable pub validate_handoff_authority : Fields → Result RuntimeError (Unit {0})
  unfolding check_delegated expand_principal_capabilities
  validate_handoff_authority h =
      authority_of (as_dict (get "from_principal" h)) (get "delegated_capabilities" h)
