-- ===== src/Modes/Issuance.antt =====
-- When issuance of a mode is allowed.
use pcs_core.Prelude.{
  String, ◌≡◌, ◌↔◌, refl, Option, none, some, Bool, true, false, not, ◌&&◌, if◌then◌else◌, elem,
}
use pcs_core.Json.{Fields, truthy}
use pcs_core.Json.Dict.{get}
use pcs_core.Host.{Host}
use pcs_core.Modes.{
  public_cli_statuses, release_grade_statuses, Refusal, status_of, refusal_of,
  get_certificate_mode_status, enforce_certificate_mode_issuance,
}

-- The outcome of the three tests in a row.
tests_sound :
    (a b c d : Bool) (x y z : Refusal)
    → (if not a then some x else if not b then some y else if c && not d then some z else none)
      ≡ none
    → (a ≡ true) × (b ≡ true) × (c ≡ true → d ≡ true)
tests_sound false b c d x y z h = cc
tests_sound true false c d x y z h = cc
tests_sound true true true false x y z h = cc
tests_sound true true true true x y z h = (refl, refl, λ _. refl)
tests_sound true true false d x y z h = (refl, refl, λ q. cc)

tests_complete :
    (a b c d : Bool) (x y z : Refusal)
    → (a ≡ true) × (b ≡ true) × (c ≡ true → d ≡ true)
    → (if not a then some x else if not b then some y else if c && not d then some z else none)
      ≡ none
tests_complete a b true d x y z (p, q, r) = rw (p, q, r refl) refl
tests_complete a b false d x y z (p, q, r) = rw (p, q) refl

module _ ⦃py : Host⦄ where
  -- The table has the mode; it may be issued, has a public status and, where this is asked, one of
  -- release grade.
  abbrev pub MayIssue : Bool → Option Fields → Type 0
  MayIssue release none = ⊥
  MayIssue release (some entry) =
      (truthy (get "allowed_issuance" entry) ≡ true)
      × (elem (status_of entry) public_cli_statuses ≡ true)
      × (release ≡ true → elem (status_of entry) release_grade_statuses ≡ true)

  pub refusal_sound :
      (mode : String) (release : Bool) (o : Option Fields)
      → refusal_of mode release o ≡ none
      → MayIssue release o
  refusal_sound mode release none h = cc
  refusal_sound mode release (some entry) h =
      tests_sound (truthy (get "allowed_issuance" entry))
        (elem (status_of entry) public_cli_statuses) release
        (elem (status_of entry) release_grade_statuses) _ _ _ h

  pub refusal_complete :
      (mode : String) (release : Bool) (o : Option Fields)
      → MayIssue release o
      → refusal_of mode release o ≡ none
  refusal_complete mode release none h = elim h [ ]
  refusal_complete mode release (some entry) h =
      tests_complete (truthy (get "allowed_issuance" entry))
        (elem (status_of entry) public_cli_statuses) release
        (elem (status_of entry) release_grade_statuses) _ _ _ h

  -- On the public path a mode is not refused exactly when the table has it, its issuance is allowed,
  -- its status is public and, under release grade, also of release grade.
  pub public_issuance_iff :
      (table : Fields) (mode : String) (release : Bool)
      → (enforce_certificate_mode_issuance table mode release false ≡ none)
        ↔ MayIssue release (get_certificate_mode_status table mode)
  unfolding enforce_certificate_mode_issuance
  public_issuance_iff table mode release = (
    refusal_sound mode release (get_certificate_mode_status table mode),
    refusal_complete mode release (get_certificate_mode_status table mode),
  )
