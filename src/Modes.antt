-- ===== src/Modes.antt =====
-- python/pcs_core/pf_core_certificate_mode_status.py: the table of certificate modes and the policy of
-- issuance. The parsed content of the table's file is an argument.
pub mod Issuance
pub mod Table
pub mod Public
use pcs_core.Prelude.{
  ℕ, String, List, [], ◌∷◌, ◌++◌, Option, none, some, Bool, true, false, not, ◌&&◌, ◌||◌, ◌==◌,
  if◌then◌else◌, elem, all, map, when, Result, ok, err, ◌>>=◌, ◌>>◌, raise_if, sort_texts,
}
use pcs_core.Json.{Value, bool, arr, obj, Fields, as_dict, as_list, to_list, truthy}
use pcs_core.Json.Dict.{lookup, get}
use pcs_core.Json.Text.{text_or, str_of, is_blank}
use pcs_core.Host.{Host}

abbrev pub mode_statuses : List String
mode_statuses = "release_candidate" ∷ "legacy" ∷ "disabled" ∷ "experimental" ∷ "preview" ∷ []

abbrev pub public_cli_statuses : List String
public_cli_statuses = "release_candidate" ∷ "legacy" ∷ "experimental" ∷ []

abbrev pub release_grade_statuses : List String
release_grade_statuses = "release_candidate" ∷ "legacy" ∷ []

-- CertificateModeStatusError, with what its messages print.
pub data TableError : Type 0 where
  root_not_an_object : TableError
  modes_missing : TableError
  entry_not_an_object : TableError
  mode_missing : TableError
  duplicate_mode : String → TableError
  unknown_status : String → String → TableError
  issuance_not_a_bool : String → TableError
  description_missing : String → TableError
  table_drift : List String → List String → TableError

-- Why issuance is refused.
pub data Refusal : Type 0 where
  unknown_mode : String → Refusal
  not_allowed : String → String → Refusal
  not_public : String → String → Refusal
  not_release_grade : String → String → Refusal

abbrev pub is_bool : Option Value → Bool
is_bool (some (bool b)) = true
is_bool _ = false

module _ ⦃py : Host⦄ where
  abbrev pub mode_of : Fields → String
  mode_of entry = text_or "" (get "mode" entry)

  abbrev pub status_of : Fields → String
  status_of entry = text_or "" (get "status" entry)

  -- The checks of one entry after those seen.
  abbrev pub check_entry : List String → Fields → Result TableError (Unit {0})
  check_entry seen entry =
      raise_if (mode_of entry == "") mode_missing
      >> raise_if (elem (mode_of entry) seen) (duplicate_mode (mode_of entry))
      >> raise_if (not (elem (status_of entry) mode_statuses))
          (unknown_status (mode_of entry) (status_of entry))
      >> raise_if (not (is_bool (lookup "allowed_issuance" entry)))
          (issuance_not_a_bool (mode_of entry))
      >> raise_if (is_blank (text_or "" (get "description" entry)))
          (description_missing (mode_of entry))

  -- The loop of load_certificate_mode_status.
  unfoldable pub check_entries : List String → List Value → Result TableError (Unit {0})
  check_entries seen [] = ok tt
  check_entries seen (obj entry ∷ rest) =
      check_entry seen entry >> check_entries (mode_of entry ∷ seen) rest
  check_entries seen (_ ∷ rest) = err entry_not_an_object

  abbrev pub nonempty_list : Option (List Value) → Result TableError (List Value)
  nonempty_list (some (v ∷ vs)) = ok (v ∷ vs)
  nonempty_list _ = err modes_missing

  -- load_certificate_mode_status, of the value that the file holds
  unfoldable pub load_certificate_mode_status : Value → Result TableError Fields
  unfolding check_entries
  load_certificate_mode_status (obj table) = do
    modes ← nonempty_list (as_list (get "modes" table))
    check_entries [] modes
    ok table
  load_certificate_mode_status _ = err root_not_an_object

  abbrev pub dicts_in : List Value → List Fields
  dicts_in [] = []
  dicts_in (obj entry ∷ rest) = entry ∷ dicts_in rest
  dicts_in (_ ∷ rest) = dicts_in rest

  abbrev pub entries_in : Option (List Value) → List Fields
  entries_in none = []
  entries_in (some vs) = dicts_in vs

  -- iter_mode_status_entries, of a loaded table
  unfoldable pub iter_mode_status_entries : Fields → List Fields
  iter_mode_status_entries table = entries_in (as_list (get "modes" table))

  -- mode_status_by_name().get(mode): the last entry with the name.
  unfoldable pub find_mode : String → List Fields → Option Fields
  find_mode mode [] = none
  find_mode mode (entry ∷ rest) = elim (find_mode mode rest) [
    | some later ↦ some later
    | none ↦ if str_of (get "mode" entry) == mode then some entry else none
  ]

  unfoldable pub get_certificate_mode_status : Fields → String → Option Fields
  unfolding find_mode iter_mode_status_entries
  get_certificate_mode_status table mode = find_mode mode (iter_mode_status_entries table)

  -- get_external_claim_class_status: the first entry of the class.
  unfoldable pub find_claim_class : String → List Value → Option Fields
  find_claim_class claim [] = none
  find_claim_class claim (obj entry ∷ rest) =
      if text_or "" (get "claim_class" entry) == claim
      then some entry
      else find_claim_class claim rest
  find_claim_class claim (_ ∷ rest) = find_claim_class claim rest

  abbrev class_among : String → Option (List Value) → Option Fields
  class_among claim none = none
  class_among claim (some entries) = find_claim_class claim entries

  unfoldable pub get_external_claim_class_status : Fields → String → Option Fields
  unfolding find_claim_class
  get_external_claim_class_status table claim =
      class_among claim (as_list (get "external_claim_classes" table))

  abbrev pub refusal_of : String → Bool → Option Fields → Option Refusal
  refusal_of mode release none = some (unknown_mode mode)
  refusal_of mode release (some entry) =
      if not (truthy (get "allowed_issuance" entry))
      then some (not_allowed mode (status_of entry))
      else if not (elem (status_of entry) public_cli_statuses)
      then some (not_public mode (status_of entry))
      else if release && not (elem (status_of entry) release_grade_statuses)
      then some (not_release_grade mode (status_of entry))
      else none

  -- The flags are release_grade and allow_non_public.
  unfoldable pub enforce_certificate_mode_issuance : Fields → String → Bool → Bool → Option Refusal
  enforce_certificate_mode_issuance table mode release non_public =
      if non_public then none else refusal_of mode release (get_certificate_mode_status table mode)

  abbrev pub is_none : Option Refusal → Bool
  is_none none = true
  is_none (some r) = false

  unfoldable pub issuable : Fields → Bool → List Fields → List String
  issuable table release [] = []
  issuable table release (entry ∷ rest) =
      when
        (is_none
          (enforce_certificate_mode_issuance table (str_of (get "mode" entry)) release false))
        (str_of (get "mode" entry))
      ++ issuable table release rest

  -- The set, as the list of its members in the order of the table.
  unfoldable pub public_issuance_modes : Fields → Bool → List String
  unfolding issuable
  public_issuance_modes table release = issuable table release (iter_mode_status_entries table)

  abbrev pub names_of : List Fields → List String
  names_of [] = []
  names_of (entry ∷ rest) = str_of (get "mode" entry) ∷ names_of rest

  -- `sorted(xs - ys)`
  unfoldable pub difference : List String → List String → List String
  difference [] ys = []
  difference (x ∷ xs) ys = when (not (elem x ys)) x ++ difference xs ys

  unfoldable pub is_subset : List String → List String → Bool
  is_subset xs ys = all (λ x. elem x ys) xs

  unfoldable pub assert_status_table_covers_modes :
      Fields → List String → Result TableError (Unit {0})
  unfolding difference is_subset
  assert_status_table_covers_modes table known =
      let names = names_of (iter_mode_status_entries table) in
      raise_if (not (is_subset known names) || not (is_subset names known))
        (table_drift (sort_texts (difference known names)) (sort_texts (difference names known)))
