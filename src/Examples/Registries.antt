-- ===== src/Examples/Registries.antt =====
-- A witness of the theorem on declared assumptions.
use pcs_core.Prelude.{String, List, [], ◌∷◌, ◌≡◌, ◌↔◌, ◌⊎◌, none}
use pcs_core.Json.{str, obj, arr, nil, cons, Fields, end, field, texts}
use pcs_core.Registry.Skipped.{SkipsNothing}
use pcs_core.Registry.{enforce_assumption_declared}
use pcs_core.Registry.Assumptions.{IsDeclared, enforce_assumption_declared_iff}
use pcs_core.Examples.{demo}

abbrev entries : List (String × Fields)
entries =
    (
      "PFCoreCertificate.v0",
      field "semantic_checks"
          (arr (cons (obj (field "check_id" (str "lean_kernel_proof") end)) nil)) end,
    )
    ∷ []

abbrev assumed : Fields
assumed =
    field "claim_class" (str "AssumptionDeclared")
      (field "assumption_refs" (arr (texts ("docs/pf-core/assumptions.md" ∷ []))) end)

assumed_example :
    (enforce_assumption_declared ⦃py = demo⦄ entries assumed none ≡ [])
    ↔ (SkipsNothing ⦃py = demo⦄ entries assumed none ⊎ IsDeclared ⦃py = demo⦄ assumed)
assumed_example = enforce_assumption_declared_iff ⦃py = demo⦄ entries assumed none
