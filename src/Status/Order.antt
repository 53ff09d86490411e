-- ===== src/Status/Order.antt =====
-- The transition policy as a relation on statuses, what it can reach, and its order.
use pcs_core.Prelude.{
  ℕ, ◌<◌, ◌∙◌, sym, subst, eq_refl, List, [], ◌∷◌, ◌≡◌, ◌≢◌, refl, ◌↔◌, ◌⊎◌, inl, inr, true, arith,
}
use pcs_core.Status.{
  ArtifactStatus, draft, extracted, human_reviewed, formalized, proof_pending, proof_checked,
  certificate_pending, certificate_checked, runtime_observed, runtime_checked, rejected,
  empirical_only, deprecated, stale, value, check_status_transition,
}

-- The arrows of the policy.
pub data Step : ArtifactStatus → ArtifactStatus → Type 0 where
  observe : Step draft runtime_observed
  await_certificate : Step runtime_observed certificate_pending
  certify_at_once : Step runtime_observed certificate_checked
  certify : Step certificate_pending certificate_checked
  refuse : Step certificate_pending rejected
  prove : Step certificate_checked proof_checked
  expire : Step proof_checked stale

check_sound :
    (s t : ArtifactStatus)
    → (check_status_transition (value s) (value t)).is_allowed ≡ true
    → (s ≡ t) ⊎ Step s t
unfolding check_status_transition
check_sound draft draft h = inl refl
check_sound extracted extracted h = inl refl
check_sound human_reviewed human_reviewed h = inl refl
check_sound formalized formalized h = inl refl
check_sound proof_pending proof_pending h = inl refl
check_sound proof_checked proof_checked h = inl refl
check_sound certificate_pending certificate_pending h = inl refl
check_sound certificate_checked certificate_checked h = inl refl
check_sound runtime_observed runtime_observed h = inl refl
check_sound runtime_checked runtime_checked h = inl refl
check_sound rejected rejected h = inl refl
check_sound empirical_only empirical_only h = inl refl
check_sound deprecated deprecated h = inl refl
check_sound stale stale h = inl refl
check_sound draft runtime_observed h = inr observe
check_sound runtime_observed certificate_pending h = inr await_certificate
check_sound runtime_observed certificate_checked h = inr certify_at_once
check_sound certificate_pending certificate_checked h = inr certify
check_sound certificate_pending rejected h = inr refuse
check_sound certificate_checked proof_checked h = inr prove
check_sound proof_checked stale h = inr expire
check_sound _ _ h = cc

check-Step :
    {s t : ArtifactStatus}
    → Step s t
    → (check_status_transition (value s) (value t)).is_allowed ≡ true
unfolding check_status_transition
check-Step observe = refl
check-Step await_certificate = refl
check-Step certify_at_once = refl
check-Step certify = refl
check-Step refuse = refl
check-Step prove = refl
check-Step expire = refl

check_unchanged :
    (s : ArtifactStatus) → (check_status_transition (value s) (value s)).is_allowed ≡ true
unfolding check_status_transition
check_unchanged s = rw (eq_refl (value s)) refl

check_complete :
    (s t : ArtifactStatus)
    → (s ≡ t) ⊎ Step s t
    → (check_status_transition (value s) (value t)).is_allowed ≡ true
check_complete s t (inl e) =
    subst (λ u. (check_status_transition (value s) (value u)).is_allowed ≡ true) e
      (check_unchanged s)
check_complete s t (inr st) = check-Step st

-- Between the fourteen statuses, the verdict allows exactly the unchanged status and the
-- seven arrows of Step.
pub check_status_iff :
    (s t : ArtifactStatus)
    → ((check_status_transition (value s) (value t)).is_allowed ≡ true) ↔ ((s ≡ t) ⊎ Step s t)
check_status_iff s t = (check_sound s t, check_complete s t)

-- A history: each status follows from the one before by a transition that the policy allows.
pub data History (s : ArtifactStatus) : ArtifactStatus → List ArtifactStatus → Type 0 where
  start : History s s []
  move :
      {t u : ArtifactStatus} {between : List ArtifactStatus}
      → History s t between
      → (check_status_transition (value t) (value u)).is_allowed ≡ true
      → History s u (t ∷ between)

abbrev pub rank : ArtifactStatus → ℕ
rank draft = 0
rank runtime_observed = 1
rank certificate_pending = 2
rank certificate_checked = 3
rank proof_checked = 4
rank rejected = 4
rank stale = 5
rank _ = 0

rank-Step : {s t : ArtifactStatus} → Step s t → rank s < rank t
rank-Step observe = omega arith
rank-Step await_certificate = omega arith
rank-Step certify_at_once = omega arith
rank-Step certify = omega arith
rank-Step refuse = omega arith
rank-Step prove = omega arith
rank-Step expire = omega arith

move_cases :
    (s t u : ArtifactStatus)
    → (s ≡ t) ⊎ (rank s < rank t)
    → (t ≡ u) ⊎ Step t u
    → (s ≡ u) ⊎ (rank s < rank u)
move_cases s t u (inl e) (inl p) = inl (e ∙ p)
move_cases s t u (inl e) (inr st) = inr (rw e (rank-Step st))
move_cases s t u (inr l) (inl p) = inr (rw (← p) l)
move_cases s t u (inr l) (inr st) = inr (omega (arith, rank-Step st))

-- Over a history a status stays as it is or rises in the order of the life cycle.
pub History-rank :
    {s t : ArtifactStatus} {between : List ArtifactStatus}
    → History s t between
    → (s ≡ t) ⊎ (rank s < rank t)
History-rank start = inl refl
History-rank {s} (move {t} {u} h e) = move_cases s t u (History-rank h) ((check_status_iff t u).0 e)

equal_or_below : (m n : ℕ) → m < n → n < m → ⊥
equal_or_below m n h k = omega arith

-- No history leads from one status to another and back.
pub History-antisymm :
    {s t : ArtifactStatus} {to back : List ArtifactStatus}
    → History s t to
    → History t s back
    → s ≡ t
History-antisymm {s} {t} h k = join (History-rank h) (History-rank k)
  where
    join : (s ≡ t) ⊎ (rank s < rank t) → (t ≡ s) ⊎ (rank t < rank s) → s ≡ t
    join (inl e) _ = e
    join (inr l) (inl e) = sym e
    join (inr l) (inr m) = absurd (equal_or_below (rank s) (rank t) l m)

abbrev pub Contains : ArtifactStatus → List ArtifactStatus → Type 0
Contains s [] = ⊥
Contains s (t ∷ ts) = (s ≡ t) ⊎ Contains s ts

prove_from :
    {t u : ArtifactStatus} (between : List ArtifactStatus)
    → Step t u
    → u ≡ proof_checked
    → Contains certificate_checked (t ∷ between)
prove_from between prove e = inl refl
prove_from between observe e = cc
prove_from between await_certificate e = cc
prove_from between certify_at_once e = cc
prove_from between certify e = cc
prove_from between refuse e = cc
prove_from between expire e = cc

certificate_in :
    {s t : ArtifactStatus} {between : List ArtifactStatus}
    → History s t between
    → t ≡ proof_checked
    → s ≢ proof_checked
    → Contains certificate_checked between
certificate_in start e ne = absurd (ne e)
certificate_in (move {t} {u} {between} h allowed) e ne = elim ((check_status_iff t u).0 allowed) [
  | inl p ↦ inr (certificate_in h (p ∙ e) ne)
  | inr st ↦ prove_from between st e
]

-- Proof before certificate cannot happen: a history that ends in ProofChecked and did not begin there
-- passes through CertificateChecked.
pub proof_checked_needs_certificate :
    {s : ArtifactStatus} {between : List ArtifactStatus}
    → History s proof_checked between
    → s ≢ proof_checked
    → Contains certificate_checked between
proof_checked_needs_certificate h ne = certificate_in h refl ne

no-Step : {s t : ArtifactStatus} → (s ≡ rejected) ⊎ (s ≡ stale) ⊎ (s ≡ deprecated) → Step s t → ⊥
no-Step h observe = ground arith
no-Step h await_certificate = ground arith
no-Step h certify_at_once = ground arith
no-Step h certify = ground arith
no-Step h refuse = ground arith
no-Step h prove = ground arith
no-Step h expire = ground arith

-- A history that begins in Rejected, Stale or Deprecated ends there.
pub terminal_is_final :
    {s t : ArtifactStatus} {between : List ArtifactStatus}
    → (s ≡ rejected) ⊎ (s ≡ stale) ⊎ (s ≡ deprecated)
    → History s t between
    → t ≡ s
terminal_is_final h start = refl
terminal_is_final {s} final (move {t} {u} h allowed) =
    let back : t ≡ s = terminal_is_final final h in
    elim ((check_status_iff t u).0 allowed) [
      | inl p ↦ sym p ∙ back
      | inr st ↦ absurd (no-Step final (subst (λ w. Step w u) back st))
    ]
