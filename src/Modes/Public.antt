-- ===== src/Modes/Public.antt =====
-- The modes for public issuance are those that the policy does not refuse.
use pcs_core.Prelude.{
  String, List, [], ◌∷◌, ◌++◌, ◌≡◌, ◌↔◌, ◌⊎◌, inl, inr, refl, sym, ap, ◌∙◌, subst, Option, none,
  some, Bool, true, false, ◌||◌, ◌==◌, if◌then◌else◌, elem, arith, Option-cases, when, eq_iff,
  or_left, or_right, or_cases,
}
use pcs_core.Json.{Fields}
use pcs_core.Json.Dict.{get}
use pcs_core.Json.Text.{str_of}
use pcs_core.Host.{Host}
use pcs_core.Modes.{
  Refusal, iter_mode_status_entries, find_mode, get_certificate_mode_status,
  enforce_certificate_mode_issuance, is_none, issuable, public_issuance_modes,
}
use pcs_core.Modes.Issuance.{MayIssue, public_issuance_iff}
use pcs_core.Modes.Table.{find_head, found_later}

elem-++ : (m : String) (xs ys : List String) → elem m (xs ++ ys) ≡ (elem m xs || elem m ys)
elem-++ m [] ys = refl
elem-++ m (x ∷ xs) ys = ground (arith, elem-++ m xs ys)

module _ ⦃py : Host⦄ where
  is_none-eq : (o : Option Refusal) → is_none o ≡ true → o ≡ none
  is_none-eq none h = refl
  is_none-eq (some r) h = cc

  issued_here : (b : Bool) (m name : String) → elem m (when b name) ≡ true → (b ≡ true) × (name ≡ m)
  issued_here true m name h = (refl, ground (arith, eq_iff name m))
  issued_here false m name h = cc

  issuable_sound :
      (table : Fields) (release : Bool) (m : String) (entries : List Fields)
      → elem m (issuable table release entries) ≡ true
      → enforce_certificate_mode_issuance table m release false ≡ none
  unfolding issuable
  issuable_sound table release m [] h = cc
  issuable_sound table release m (entry ∷ rest) h =
      let name = str_of (get "mode" entry) in
      let b = is_none (enforce_certificate_mode_issuance table name release false) in
      elim (or_cases (elem m (when b name)) (elem m (issuable table release rest))
        (sym (elem-++ m (when b name) (issuable table release rest)) ∙ h)) [
          | inl here ↦
              let (issued, same) = issued_here b m name here in
              subst (λ x. enforce_certificate_mode_issuance table x release false ≡ none) same
                (is_none-eq _ issued)
          | inr later ↦ issuable_sound table release m rest later
        ]

  chosen :
      (b : Bool) (entry found : Fields) → (if b then some entry else none) ≡ some found → b ≡ true
  chosen true entry found h = refl
  chosen false entry found h = cc

  -- What is found stands first, with the name, or later.
  found_where :
      (m : String) (entry found : Fields) (rest : List Fields)
      → find_mode m (entry ∷ rest) ≡ some found
      → (find_mode m rest ≡ some found) ⊎ (str_of (get "mode" entry) ≡ m)
  found_where m entry found rest h = elim (Option-cases (find_mode m rest)) [
    | inr (later, e) ↦ inl (e ∙ sym (found_later m entry later rest e) ∙ h)
    | inl e ↦ inr (
        (eq_iff _ m).0 (
          chosen (str_of (get "mode" entry) == m) entry found (sym (find_head m entry rest e) ∙ h)))
  ]

  issued_first :
      (o : Option Refusal) (m name : String)
      → o ≡ none
      → name ≡ m
      → elem m (when (is_none o) name) ≡ true
  issued_first none m name h e = or_left (name == m) false ((eq_iff name m).1 e)
  issued_first (some r) m name h e = cc

  issuable_complete :
      (table : Fields) (release : Bool) (m : String) (entries : List Fields) (found : Fields)
      → find_mode m entries ≡ some found
      → enforce_certificate_mode_issuance table m release false ≡ none
      → elem m (issuable table release entries) ≡ true
  unfolding issuable
  issuable_complete table release m [] found f h = unfold find_mode in cc
  issuable_complete table release m (entry ∷ rest) found f h =
      let name = str_of (get "mode" entry) in
      let b = is_none (enforce_certificate_mode_issuance table name release false) in
      elem-++ m (when b name) (issuable table release rest)
      ∙ elim (found_where m entry found rest f) [
        | inl later ↦
            or_right (elem m (when b name)) _ (issuable_complete table release m rest found later h)
        | inr same ↦ or_left _ (elem m (issuable table release rest)) (
            issued_first (enforce_certificate_mode_issuance table name release false) m name
              (ap (λ x. enforce_certificate_mode_issuance table x release false) same ∙ h) same)
      ]

  MayIssue-found :
      (release : Bool) (o : Option Fields) → MayIssue release o → (e : Fields) × (o ≡ some e)
  MayIssue-found release (some e) h = (e, refl)
  MayIssue-found release none h = elim h [ ]

  -- A mode is among the modes for public issuance exactly when the table has it with allowed issuance
  -- and a public status and, where this is asked, one of release grade.
  pub public_issuance_modes_iff :
      (table : Fields) (release : Bool) (m : String)
      → (elem m (public_issuance_modes table release) ≡ true)
        ↔ MayIssue release (get_certificate_mode_status table m)
  unfolding public_issuance_modes
  public_issuance_modes_iff table release m = (
    λ h.
        (public_issuance_iff table m release).0
          (issuable_sound table release m (iter_mode_status_entries table) h),
    λ h.
        let (e, f) = MayIssue-found release (get_certificate_mode_status table m) h in
        issuable_complete table release m (iter_mode_status_entries table) e
          (unfold get_certificate_mode_status in f) ((public_issuance_iff table m release).1 h),
  )
