-- ===== src/Status/Progress.antt =====
-- How far the transition policy lets an artifact go.
use pcs_core.Prelude.{List, [], ◌∷◌, ◌≡◌, refl, sym, ◌∙◌, ◌⊎◌, inl, inr, Bool, true, false}
use pcs_core.Status.{
  ArtifactStatus, draft, runtime_observed, certificate_pending, certificate_checked, proof_checked,
  value, check_status_transition, extracted, human_reviewed, formalized, proof_pending,
  runtime_checked, rejected, empirical_only, deprecated, stale,
}
use pcs_core.Status.Order.{
  Step, observe, await_certificate, certify_at_once, certify, refuse, prove, expire, History, start,
  move, check_status_iff,
}

-- The statuses that an arrow leaves.
abbrev moves : ArtifactStatus → Bool
moves draft = true
moves runtime_observed = true
moves certificate_pending = true
moves certificate_checked = true
moves proof_checked = true
moves _ = false

Step-moves : {s t : ArtifactStatus} → Step s t → moves s ≡ true
Step-moves observe = refl
Step-moves await_certificate = refl
Step-moves certify_at_once = refl
Step-moves certify = refl
Step-moves refuse = refl
Step-moves prove = refl
Step-moves expire = refl

true_not_false : true ≡ false → ⊥
true_not_false h = cc

-- The policy allows no other status to follow.
abbrev pub IsFinal : ArtifactStatus → Type 0
IsFinal s =
    (t : ArtifactStatus) → (check_status_transition (value s) (value t)).is_allowed ≡ true → s ≡ t

IsFinal-of : (s : ArtifactStatus) → moves s ≡ false → IsFinal s
IsFinal-of s h t allowed = elim ((check_status_iff s t).0 allowed) [
  | inl same ↦ same
  | inr step ↦ absurd (true_not_false (sym (Step-moves step) ∙ h))
]

-- A history from the status to the other one.
abbrev pub Reaches : ArtifactStatus → ArtifactStatus → Type 0
Reaches s t = (between : List ArtifactStatus) × History s t between

extend : {s t u : ArtifactStatus} → Reaches s t → Step t u → Reaches s u
extend {s} {t} {u} (between, h) step = (t ∷ between, move h ((check_status_iff t u).1 (inr step)))

-- From every status the policy either allows no other status, or there is a history of allowed
-- transitions to ProofChecked.
pub IsFinal-or_Reaches : (s : ArtifactStatus) → IsFinal s ⊎ Reaches s proof_checked
IsFinal-or_Reaches draft = inr (extend (extend (extend ([], start) observe) certify_at_once) prove)
IsFinal-or_Reaches runtime_observed = inr (extend (extend ([], start) certify_at_once) prove)
IsFinal-or_Reaches certificate_pending = inr (extend (extend ([], start) certify) prove)
IsFinal-or_Reaches certificate_checked = inr (extend ([], start) prove)
IsFinal-or_Reaches proof_checked = inr ([], start)
IsFinal-or_Reaches extracted = inl (IsFinal-of extracted refl)
IsFinal-or_Reaches human_reviewed = inl (IsFinal-of human_reviewed refl)
IsFinal-or_Reaches formalized = inl (IsFinal-of formalized refl)
IsFinal-or_Reaches proof_pending = inl (IsFinal-of proof_pending refl)
IsFinal-or_Reaches runtime_checked = inl (IsFinal-of runtime_checked refl)
IsFinal-or_Reaches rejected = inl (IsFinal-of rejected refl)
IsFinal-or_Reaches empirical_only = inl (IsFinal-of empirical_only refl)
IsFinal-or_Reaches deprecated = inl (IsFinal-of deprecated refl)
IsFinal-or_Reaches stale = inl (IsFinal-of stale refl)
