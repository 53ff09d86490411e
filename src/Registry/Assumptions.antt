-- ===== src/Registry/Assumptions.antt =====
-- When the rule on assumptions is met.
use pcs_core.Prelude.{
  String, List, [], ◌∷◌, ◌≡◌, ◌↔◌, ◌⊎◌, inl, inr, refl, sym, ap, ◌∙◌, Bool-cases, Option, none,
  some, Bool, true, false, not, ◌&&◌, ◌||◌, ◌==◌, if◌then◌else◌, elem, any, when, arith, eq_iff,
  OneOf, elem_iff, subst, or_cases, or_left, or_right,
}
use pcs_core.Json.{Value, Fields, as_list}
use pcs_core.Json.Dict.{get}
use pcs_core.Json.Text.{str_of, text_or, strip}
use pcs_core.Host.{Host}
use pcs_core.Runtime.Chain.Meaning.{nil_of_append, when-eq-nil}
use pcs_core.Registry.References.{IsAssumptionText, assumption_ref_valid_iff}
use pcs_core.Registry.Skipped.{SkipsNothing, skipped_checks_iff}
use pcs_core.Registry.{
  proof_overclaim_classes, open_claim_classes, assumption_ref_valid, AssumptionIssue, overclaims,
  assumption_ref_issues, issues_of, skipped_checks, enforce_assumption_declared,
}

checked_refs :
    (valid listed over : Bool) (x y : AssumptionIssue)
    → over ≡ false
    → (if not valid then x ∷ [] else when (not listed && not over) y) ≡ []
    → (valid ≡ true) × (listed ≡ true)
checked_refs true true over x y o h = (refl, refl)
checked_refs true false false x y o h = cc
checked_refs true false true x y o h = cc
checked_refs false listed over x y o h = cc

false_not_true : false ≡ true → ⊥
false_not_true h = cc

not_both : (a b : Bool) → a ≡ false → b ≡ false → (a || (b || false)) ≡ false
not_both a b p q = ground arith

unlisted :
    (name claim : String)
    → elem name open_claim_classes ≡ false
    → elem claim open_claim_classes ≡ true
    → (name == claim) ≡ false
unlisted name claim out h = elim (Bool-cases (name == claim)) [
  | inl e ↦
      absurd (
        false_not_true
          (sym out ∙ ap (λ c. elem c open_claim_classes) ((eq_iff name claim).0 e) ∙ h))
  | inr e ↦ e
]

listed_not_over :
    (claim : String)
    → elem claim open_claim_classes ≡ true
    → elem claim proof_overclaim_classes ≡ false
listed_not_over claim h =
    not_both ("LeanKernelChecked" == claim) ("ProofChecked" == claim)
      (unlisted "LeanKernelChecked" claim refl h) (unlisted "ProofChecked" claim refl h)

module _ ⦃py : Host⦄ where
  -- One of the refs names an assumption.
  abbrev pub HasValidRef : Value → Type 0
  HasValidRef v =
      (refs : List Value) × (as_list v ≡ some refs)
      × ((r : Value) × OneOf r refs × IsAssumptionText (strip (str_of r)))

  -- The certificate claims no proof and names its assumptions.
  pub record IsDeclared (certificate : Fields) : Type 0 where
    pub claims_less : OneOf (text_or "" (get "claim_class" certificate)) (
        "AssumptionDeclared" ∷ "RuntimeChecked" ∷ "CertificateChecked" ∷ "ReplayValidated"
        ∷ "SchemaValidated" ∷ "OutOfScope" ∷ [])
    pub names_assumption : HasValidRef (get "assumption_refs" certificate)

  any_sound :
      (refs : List Value)
      → any (λ r. assumption_ref_valid (str_of r)) refs ≡ true
      → (r : Value) × OneOf r refs × IsAssumptionText (strip (str_of r))
  any_sound [] h = cc
  any_sound (r ∷ rs) h = elim (or_cases (assumption_ref_valid (str_of r)) _ h) [
    | inl e ↦ (r, inl refl, (assumption_ref_valid_iff (str_of r)).0 e)
    | inr e ↦ let (q, m, t) = any_sound rs e in (q, inr m, t)
  ]

  any_complete :
      (refs : List Value) (r : Value)
      → OneOf r refs
      → IsAssumptionText (strip (str_of r))
      → any (λ q. assumption_ref_valid (str_of q)) refs ≡ true
  any_complete [] r m t = absurd m
  any_complete (q ∷ qs) r (inl e) t = or_left (assumption_ref_valid (str_of q)) _ (
      subst (λ x. assumption_ref_valid (str_of x) ≡ true) e
        ((assumption_ref_valid_iff (str_of r)).1 t))
  any_complete (q ∷ qs) r (inr m) t =
      or_right (assumption_ref_valid (str_of q)) _ (any_complete qs r m t)

  refs_sound :
      (claim : String) (v : Value) (o : Option (List Value))
      → as_list v ≡ o
      → elem claim proof_overclaim_classes ≡ false
      → assumption_ref_issues claim o ≡ []
      → (elem claim open_claim_classes ≡ true) × HasValidRef v
  refs_sound claim v none e over h = cc
  refs_sound claim v (some []) e over h = cc
  refs_sound claim v (some (r ∷ rs)) e over h =
      let (valid, listed) =
        checked_refs (any (λ r. assumption_ref_valid (str_of r)) (r ∷ rs))
          (elem claim open_claim_classes) (elem claim proof_overclaim_classes) _ _ over h in
      (listed, (r ∷ rs, e, any_sound (r ∷ rs) valid))

  listed_refs_complete :
      (claim : String) (refs : List Value) (r : Value)
      → elem claim open_claim_classes ≡ true
      → OneOf r refs
      → IsAssumptionText (strip (str_of r))
      → assumption_ref_issues claim (some refs) ≡ []
  listed_refs_complete claim [] r listed m t = absurd m
  listed_refs_complete claim (q ∷ qs) r listed m t = rw (any_complete (q ∷ qs) r m t, listed) refl

  refs_complete :
      (claim : String) (v : Value)
      → elem claim open_claim_classes ≡ true
      → HasValidRef v
      → assumption_ref_issues claim (as_list v) ≡ []
  refs_complete claim v listed (refs, e, (r, m, t)) =
      rw e (listed_refs_complete claim refs r listed m t)

  issues_sound :
      (certificate : Fields) (skipped : List String)
      → issues_of certificate skipped ≡ []
      → (skipped ≡ []) ⊎ IsDeclared certificate
  issues_sound certificate [] h = inl refl
  issues_sound certificate (id ∷ ids) h =
      let claim = text_or "" (get "claim_class" certificate) in
      let (over, refs) =
        nil_of_append (when (elem claim proof_overclaim_classes) (overclaims claim (id ∷ ids))) _
          h in
      let (listed, valid) =
        refs_sound claim (get "assumption_refs" certificate) _ refl (when-eq-nil _ _ over) refs in
      inr (record {
        claims_less = (elem_iff claim open_claim_classes).0 listed;
        names_assumption = valid;
      })

  issues_complete :
      (certificate : Fields) (skipped : List String)
      → (skipped ≡ []) ⊎ IsDeclared certificate
      → issues_of certificate skipped ≡ []
  issues_complete certificate skipped (inl e) = ap (issues_of certificate) e
  issues_complete certificate [] (inr d) = refl
  issues_complete certificate (id ∷ ids) (inr d) =
      let claim = text_or "" (get "claim_class" certificate) in
      let listed = (elem_iff claim open_claim_classes).1 d.claims_less in
      rw
        (
          listed_not_over claim listed,
          refs_complete claim (get "assumption_refs" certificate) listed d.names_assumption,
        )
        refl

  -- The rule on assumptions reports nothing exactly when the certificate skips none of the checks that
  -- the context or the registry lists as deferrable, or it has one of the six claim classes that claim
  -- no proof and one of its assumption refs, without the blanks around it, is a Markdown or JSON file,
  -- lies under docs/ or examples/, or begins with as- or AssumptionSet.
  pub enforce_assumption_declared_iff :
      (entries : List (String × Fields)) (certificate : Fields) (context : Option Fields)
      → (enforce_assumption_declared entries certificate context ≡ [])
        ↔ (SkipsNothing entries certificate context ⊎ IsDeclared certificate)
  unfolding enforce_assumption_declared
  enforce_assumption_declared_iff entries certificate context =
      let skips = skipped_checks_iff entries certificate context in
      (
        λ h. elim (issues_sound certificate (skipped_checks entries certificate context) h) [
          | inl e ↦ inl (skips.0 e)
          | inr d ↦ inr d
        ],
        λ h.
            issues_complete certificate (skipped_checks entries certificate context)
              (elim h [ inl s ↦ inl (skips.1 s) | inr d ↦ inr d ]),
      )
