-- ===== src/Replay/Claims.antt =====
-- What the certificate and the exit code of a replay claim.
use pcs_core.Prelude.{
  ℕ, String, List, [], ◌∷◌, ◌≡◌, ◌⊎◌, inl, inr, refl, ◌∙◌, Option, none, some, Bool, true, false,
  if◌then◌else◌, leb, arith,
}
use pcs_core.Json.{str, obj, Fields}
use pcs_core.Json.Dict.{lookup, get, get-put}
use pcs_core.Host.{Host}
use pcs_core.Hash.{signature_field}
use pcs_core.ToolValidate.{signature_or_digest_valid}
use pcs_core.ToolValidate.Signed.{sign-valid}
use pcs_core.Replay.{claim_class_rank, replay_preserves_claim_boundary}
use pcs_core.Replay.Run.{ReplayResult, replay_trace}
use pcs_core.Replay.Certificate.{
  replay_claim, ReplayCheck, source_claim, certificate_body, build_replay_certificate,
  build_replay_check_result, certified, report, run_replay_trace,
}

leb_refl : (n : ℕ) → leb n n ≡ true
leb_refl n = ground arith

-- The class that is claimed is OutOfScope or, after a match, that of the source.
claim_rank :
    (source : String) (matches : Bool) (o : Option ℕ)
    → claim_class_rank source ≡ o
    → (q : ℕ) × (claim_class_rank (replay_claim source matches) ≡ some q)
      × (((replay_claim source matches ≡ "OutOfScope") × (q ≡ 0))
          ⊎ ((matches ≡ true) × (replay_claim source matches ≡ source)))
unfolding replay_claim replay_preserves_claim_boundary
claim_rank source false o e = (0, unfold claim_class_rank in refl, inl (refl, refl))
claim_rank source true none e = (0, rw e (unfold claim_class_rank in refl), inl (rw e refl, refl))
claim_rank source true (some q) e = (q, rw (e, leb_refl q) e, inr (refl, rw (e, leb_refl q) refl))

module _ ⦃py : Host⦄ where
  claim_class-certificate :
      (trace : Fields) (r : ReplayResult)
      → get "claim_class" (build_replay_certificate trace r)
        ≡ str (replay_claim (source_claim trace) r.matches)
  unfolding build_replay_certificate
  claim_class-certificate trace r =
      get-put signature_field "claim_class" _ (certificate_body trace r)
      ∙ unfold get certificate_body lookup in refl

  -- The claim class of a replay certificate is a known one. It is OutOfScope, of rank 0, or the replay
  -- matched and it is the claim class of the trace: no replay raises a claim, and none makes it
  -- ReplayValidated unless the trace claims that already.
  pub replay_certificate-rank :
      (trace : Fields) (r : ReplayResult)
      → (c : String) × (q : ℕ) × (get "claim_class" (build_replay_certificate trace r) ≡ str c)
        × (claim_class_rank c ≡ some q)
        × (((c ≡ "OutOfScope") × (q ≡ 0)) ⊎ ((r.matches ≡ true) × (c ≡ source_claim trace)))
  replay_certificate-rank trace r =
      let (q, ranked, bounded) = claim_rank (source_claim trace) r.matches _ refl in
      (
        replay_claim (source_claim trace) r.matches,
        q,
        claim_class-certificate trace r,
        ranked,
        bounded,
      )

  pub record IsValidated (matched : Bool) (run : ℕ × ReplayCheck) : Type 0 where
    pub exits_with_0 : run.0 ≡ 0
    pub replay_matched : matched ≡ true
    pub status_validated : run.1.status ≡ "ReplayValidated"
    pub certificate : Fields
    pub carried : run.1.certificate ≡ some certificate
    pub fits_schema : py.schema_errors (obj certificate) "PFCoreCertificate.v0" ≡ []
    pub signed : signature_or_digest_valid certificate ≡ []

  pub record IsRejected (run : ℕ × ReplayCheck) : Type 0 where
    pub exits_with_1 : run.0 ≡ 1
    pub status_rejected : run.1.status ≡ "Rejected"
    pub out_of_scope : run.1.claim_class ≡ "OutOfScope"
    pub no_certificate : run.1.certificate ≡ none

  outcome :
      (trace : Fields) (r : ReplayResult) (errors : List String)
      → py.schema_errors (obj (build_replay_certificate trace r)) "PFCoreCertificate.v0" ≡ errors
      → r.matches ≡ true
      → IsValidated r.matches (report trace (certified trace r errors))
        ⊎ IsRejected (report trace (certified trace r errors))
  unfolding build_replay_check_result
  outcome trace r [] fits e = inl (record {
    exits_with_0 = rw e refl;
    replay_matched = e;
    status_validated = rw e refl;
    certificate = build_replay_certificate trace r;
    carried = refl;
    fits_schema = fits;
    signed = unfold build_replay_certificate in sign-valid (certificate_body trace r);
  })
  outcome trace r (x ∷ xs) fits e = inr (record {
    exits_with_1 = refl;
    status_rejected = refl;
    out_of_scope = refl;
    no_certificate = refl;
  })

  settled :
      (trace : Fields) (r : ReplayResult) (matches : Bool)
      → r.matches ≡ matches
      → let run = report trace (
          if matches
          then certified trace r
              (py.schema_errors (obj (build_replay_certificate trace r)) "PFCoreCertificate.v0")
          else (r, none)) in
        IsValidated r.matches run ⊎ IsRejected run
  unfolding build_replay_check_result
  settled trace r true e = outcome trace r _ refl e
  settled trace r false e = inr (record {
    exits_with_1 = rw e refl;
    status_rejected = rw e refl;
    out_of_scope = rw e refl;
    no_certificate = refl;
  })

  -- A replay run either exits with 0 and ReplayValidated, its replay matched, and carries a
  -- certificate that fits the schema and is signed with its own digest; or it exits with 1 and
  -- Rejected, claims OutOfScope and carries no certificate.
  pub run_replay_trace-outcome :
      (original : Fields) (source : Option (Option String × Fields))
      → IsValidated (replay_trace original source).matches (run_replay_trace original source)
        ⊎ IsRejected (run_replay_trace original source)
  unfolding run_replay_trace
  run_replay_trace-outcome original source =
      settled original (replay_trace original source) (replay_trace original source).matches refl
