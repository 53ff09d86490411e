-- ===== src/Runtime/Action/Claim.antt =====
-- The claim classes that a trace may bear.
use pcs_core.Prelude.{
  String, List, [], ◌∷◌, ◌≡◌, ◌↔◌, ◌≢◌, ap, refl, Bool, true, false, not, ◌==◌, ok, Result, ◌>>◌,
  raise_if, elem, arith, eq_iff, OneOf, elem_iff,
}
use pcs_core.Runtime.{claim_class_overclaim}
use pcs_core.Runtime.Action.{trace_claim_classes, assert_claim_class_allowed}

first_passes {ℓ} :
    {E : Type ℓ} (a : Bool) (e : E) (k l : Result E (Unit {0}))
    → ((raise_if (not a) e >> k) >> l) ≡ ok tt
    → a ≡ true
first_passes true e k l h = refl
first_passes false e k l h = cc

-- The claim classes of a trace.
abbrev pub IsTraceClass : String → Type 0
IsTraceClass claim = OneOf claim (
    "SchemaValidated" ∷ "RuntimeChecked" ∷ "ReplayValidated" ∷ "AssumptionDeclared" ∷ "OutOfScope"
    ∷ [])

differs :
    (claim other : String) (classes : List String)
    → elem other classes ≡ false
    → elem claim classes ≡ true
    → ((claim == other) ≡ false) × ((other == claim) ≡ false)
differs claim other classes out inside =
    let ne : claim ≢ other = λ q. cc (ap (λ c. elem c classes) q, out, inside) in
    (ground (arith, eq_iff claim other), ground (arith, eq_iff other claim))

-- _assert_claim_class_allowed accepts exactly SchemaValidated, RuntimeChecked, ReplayValidated,
-- AssumptionDeclared and OutOfScope, with a proof reference or without one.
pub claim_class_allowed_iff :
    (claim : String) (proved : Bool)
    → (assert_claim_class_allowed claim proved ≡ ok tt) ↔ IsTraceClass claim
unfolding assert_claim_class_allowed
claim_class_allowed_iff claim proved = (
  λ h.
      (elem_iff claim trace_claim_classes).0
        (first_passes (elem claim trace_claim_classes) (claim_class_overclaim claim) _ _ h),
  λ listed.
      let h = (elem_iff claim trace_claim_classes).1 listed in
      let (c, _) = differs claim "CertificateChecked" trace_claim_classes refl h in
      let (_, l) = differs claim "LeanKernelChecked" trace_claim_classes refl h in
      rw (h, c, l) refl,
)
