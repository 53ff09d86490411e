-- ===== src/Examples/Statuses.antt =====
-- Witnesses of the theorems on statuses.
use pcs_core.Prelude.{[], ◌∷◌, ◌≡◌, ◌↔◌, ◌⊎◌, refl, true}
use pcs_core.Status.{
  value, draft, runtime_observed, certificate_checked, proof_checked, check_status_transition,
}
use pcs_core.Status.Order.{
  Step, History, start, move, Contains, check_status_iff, proof_checked_needs_certificate,
}
use pcs_core.Status.Progress.{IsFinal, Reaches, IsFinal-or_Reaches}

check_status_iff_example :
    ((check_status_transition (value draft) (value runtime_observed)).is_allowed ≡ true)
    ↔ ((draft ≡ runtime_observed) ⊎ Step draft runtime_observed)
check_status_iff_example = check_status_iff draft runtime_observed

certified : History runtime_observed certificate_checked (runtime_observed ∷ [])
unfolding check_status_transition
certified = move start refl

proved : History runtime_observed proof_checked (certificate_checked ∷ runtime_observed ∷ [])
unfolding check_status_transition
proved = move certified refl

proof_example : Contains certificate_checked (certificate_checked ∷ runtime_observed ∷ [])
proof_example = proof_checked_needs_certificate proved (λ e. cc e)

progress_example : IsFinal draft ⊎ Reaches draft proof_checked
progress_example = IsFinal-or_Reaches draft
