-- ===== src/Registry/References.antt =====
-- Which assumption refs registry_data.py takes for documented: the test by endswith and startswith
-- against a description of the text.
use Prim.Native.Char.{len_utf8}
use Prim.Native.String.len
use Prim.Native.String.slice
use Prim.Native.String.{[], ◌∷◌, ◌++◌, len, slice}
use native.Mathlib.Nat.{add-sub_cancel_left}
use text.Mathlib.TextBridge.{IsPrefix, IsSuffix}
use text.Mathlib.TextEquality.{starts_with_iff}
use text.Mathlib.TextLemmas.{nil-append, cons-append}
use text.Mathlib.TextPositions.{len-append, slice_all, slice-append_right}
use mathlib.Core.List.{[] as nil_list, ◌∷◌ as cons_list}
use pcs_core.Prelude.{
  ℕ, zero, suc, ◌+◌, ◌-◌, String, ◌≡◌, refl, sym, ap, subst, Char, ◌∙◌, ◌↔◌, Bool, true, false,
  ◌||◌, ◌==◌, if◌then◌else◌, arith, eq_iff, starts_with, any, or_left, or_right, or_cases,
  Bool-cases, inl, inr, List, OneOf,
}
use pcs_core.Json.Text.{strip}
use pcs_core.Registry.{assumption_ref_prefixes, ends_with, assumption_ref_valid}

-- A position beyond the first character counts on in the rest.
slice_skip :
    (c : Char) (s : String) (a : ℕ)
    → slice (c ∷ s) (suc a) (len (c ∷ s)) ≡ slice s (suc a - len_utf8 c) (len s)
slice_skip c s a =
    ap (λ b. slice (c ∷ s) (suc a) b) (len.cons c s)
    ∙ slice.cons-suc c s a (len_utf8 c + len s)
    ∙ ap (λ b. slice s (suc a - len_utf8 c) b) (add-sub_cancel_left (len_utf8 c) (len s))

-- What is left of a text from a position on is a suffix of it.
slice-IsSuffix : (s : String) (a : ℕ) → IsSuffix (slice s a (len s)) s
slice-IsSuffix s zero = ([], nil-append _ ∙ slice_all s)
slice-IsSuffix [] (suc a) = ([], ap (λ v. [] ++ v) (slice.nil (suc a) (len [])) ∙ nil-append [])
slice-IsSuffix (c ∷ s) (suc a) =
    let (u, e) = slice-IsSuffix s (suc a - len_utf8 c) in
    (c ∷ u, cons-append c u _ ∙ ap (λ v. c ∷ (u ++ v)) (slice_skip c s a) ∙ ap (λ v. c ∷ v) e)

add_sub : (a b : ℕ) → a + b - b ≡ a
add_sub a b = omega arith

suffix_of : (u t s : String) → u ++ t ≡ s → slice s (len s - len t) (len s) ≡ t
suffix_of u t s e =
    subst (λ v. slice v (len v - len t) (len v) ≡ t) e
      (rw len-append (
        ap (λ k. slice (u ++ t) k (len u + len t)) (add_sub (len u) (len t))
        ∙ slice-append_right u t))

pub ends_with_iff : (text suffix : String) → (ends_with text suffix ≡ true) ↔ IsSuffix suffix text
ends_with_iff text suffix = (
  λ h.
      let (u, e) = slice-IsSuffix text (len text - len suffix) in
      (u, sym (ap (λ v. u ++ v) ((eq_iff _ suffix).0 h)) ∙ e),
  λ (u, e). (eq_iff _ suffix).1 (suffix_of u suffix text e),
)

-- The texts that are documented assumptions: a Markdown or JSON file anywhere, a path under docs/ or
-- examples/, or a text that begins like the id or the type of an assumption set.
pub data IsAssumptionText (text : String) : Type 0 where
  markdown_file : IsSuffix ".md" text → IsAssumptionText text
  json_file : IsSuffix ".json" text → IsAssumptionText text
  under_docs : IsPrefix "docs/" text → IsAssumptionText text
  under_examples : IsPrefix "examples/" text → IsAssumptionText text
  assumption_id : IsPrefix "as-" text → IsAssumptionText text
  assumption_set : IsPrefix "AssumptionSet" text → IsAssumptionText text

-- The tests on a text that is not blank.
abbrev tests : String → Bool
tests text =
    ends_with text ".md"
    || ends_with text ".json"
    || any (λ p. starts_with text p) assumption_ref_prefixes

nonempty_first : (text : String) → (if text == "" then false else tests text) ≡ tests text
nonempty_first text = elim (Bool-cases (text == "")) [
  | inl e ↦
      subst (λ t. (if t == "" then false else tests t) ≡ tests t) (sym ((eq_iff text "").0 e)) refl
  | inr e ↦ rw e refl
]

prefix_sound :
    (text : String)
    → any (λ p. starts_with text p) assumption_ref_prefixes ≡ true
    → IsAssumptionText text
prefix_sound text h = elim (or_cases (starts_with text "docs/") _ h) [
  | inl e ↦ under_docs ((starts_with_iff text "docs/").0 e)
  | inr h ↦ elim (or_cases (starts_with text "examples/") _ h) [
    | inl e ↦ under_examples ((starts_with_iff text "examples/").0 e)
    | inr h ↦ elim (or_cases (starts_with text "as-") _ h) [
      | inl e ↦ assumption_id ((starts_with_iff text "as-").0 e)
      | inr h ↦ elim (or_cases (starts_with text "AssumptionSet") _ h) [
        | inl e ↦ assumption_set ((starts_with_iff text "AssumptionSet").0 e)
        | inr h ↦ cc
      ]
    ]
  ]
]

tests_sound : (text : String) → tests text ≡ true → IsAssumptionText text
tests_sound text h = elim (or_cases (ends_with text ".md" || ends_with text ".json") _ h) [
  | inl f ↦ elim (or_cases (ends_with text ".md") _ f) [
    | inl e ↦ markdown_file ((ends_with_iff text ".md").0 e)
    | inr e ↦ json_file ((ends_with_iff text ".json").0 e)
  ]
  | inr p ↦ prefix_sound text p
]

has_prefix :
    (text p : String) (ps : List String)
    → OneOf p ps
    → IsPrefix p text
    → any (λ q. starts_with text q) ps ≡ true
has_prefix text p nil_list m h = absurd m
has_prefix text p (cons_list q qs) (inl e) h =
    or_left (starts_with text q) _ ((starts_with_iff text q).1 (subst (λ r. IsPrefix r text) e h))
has_prefix text p (cons_list q qs) (inr m) h =
    or_right (starts_with text q) _ (has_prefix text p qs m h)

listed_prefix :
    (text p : String) → OneOf p assumption_ref_prefixes → IsPrefix p text → tests text ≡ true
listed_prefix text p m h =
    or_right (ends_with text ".md" || ends_with text ".json") _
      (has_prefix text p assumption_ref_prefixes m h)

tests_complete : (text : String) → IsAssumptionText text → tests text ≡ true
tests_complete text (markdown_file m) =
    or_left _ _ (or_left (ends_with text ".md") _ ((ends_with_iff text ".md").1 m))
tests_complete text (json_file m) =
    or_left _ _ (or_right (ends_with text ".md") _ ((ends_with_iff text ".json").1 m))
tests_complete text (under_docs m) = listed_prefix text "docs/" (inl refl) m
tests_complete text (under_examples m) = listed_prefix text "examples/" (inr (inl refl)) m
tests_complete text (assumption_id m) = listed_prefix text "as-" (inr (inr (inl refl))) m
tests_complete text (assumption_set m) =
    listed_prefix text "AssumptionSet" (inr (inr (inr (inl refl)))) m

-- The test on a ref is passed exactly by the documented assumptions, blanks around them aside.
pub assumption_ref_valid_iff :
    (ref : String) → (assumption_ref_valid ref ≡ true) ↔ IsAssumptionText (strip ref)
unfolding assumption_ref_valid
assumption_ref_valid_iff ref = (
  λ h. tests_sound (strip ref) (sym (nonempty_first (strip ref)) ∙ h),
  λ t. nonempty_first (strip ref) ∙ tests_complete (strip ref) t,
)
