-- ===== src/Integrity/Sealed.antt =====
-- What signing makes of an artifact.
use pcs_core.Prelude.{
  ℕ, String, List, [], ◌∷◌, ◌≡◌, refl, sym, ap, ◌∙◌, subst, none, Bool, true, false, ◌||◌, ◌==◌,
  if◌then◌else◌, elem, eqb, Result, ok, err, raise_if, bind_ok, length,
}
use pcs_core.Json.{str, obj, Fields}
use pcs_core.Json.Dict.{lookup, get, put, without, get-put, get-put_self, lookup-without}
use pcs_core.Json.Text.{text_or, str_of}
use pcs_core.Host.{Host}
use pcs_core.Hash.{
  signature_field, artifact_digest_field, signature_object_field, canonical_hash, digest_body,
  attach_artifact_digest, CanonicalizationError, signing_message,
}
use pcs_core.Hash.Digest.{digest_then_put}
use pcs_core.Integrity.{
  Crypto, IntegrityError, Raised, integrity, type_and_version_required, sign_ed25519,
}
use pcs_core.Integrity.Registry.{lift}
use pcs_core.Integrity.Envelope.{attached, composed, signature_object, sign_sealed, sign_artifact}
use pcs_core.Integrity.Authentic.{composed_ok}
use pcs_core.Integrity.Excluded.{get-without, sealed_with}

module _ ⦃py : Host⦄ ⦃nacl : Crypto⦄ where
  attached_ok :
      (r : Result CanonicalizationError Fields) (x : Fields) → attached r ≡ ok x → r ≡ ok x
  attached_ok (ok y) x h = cc
  attached_ok (err e) x h = cc

  lift_ok : (r : Result IntegrityError (List ℕ)) (x : List ℕ) → lift r ≡ ok x → r ≡ ok x
  lift_ok (ok y) x h = cc
  lift_ok (err e) x h = cc

  signed_bytes :
      (b : Bool) (e : IntegrityError) (x y : List ℕ) → (if b then ok x else err e) ≡ ok y → y ≡ x
  signed_bytes true e x y h = cc
  signed_bytes false e x y h = cc

  sign_ed25519_ok :
      (m : String) (seed x : List ℕ) → sign_ed25519 m seed ≡ ok x → x ≡ nacl.signs seed m
  unfolding sign_ed25519
  sign_ed25519_ok m seed x h = signed_bytes (eqb (length seed) 32) _ _ x h

  -- The signed artifact and how its parts were made.
  pub record IsSealed (d : Fields) (seed : List ℕ) (id time : String) (signed : Fields)
      : Type 0 where
    pub digest : String
    pub message : String
    pub hashed_body : canonical_hash true (digest_body d) ≡ ok digest
    pub made :
        signed
        ≡ sealed_with (digest_body d) digest (signature_object id time (nacl.signs seed message))
    pub composed_from :
        signing_message
          (text_or ""
            (get "artifact_type" (put artifact_digest_field (str digest) (digest_body d))))
          (text_or ""
            (get "schema_version" (put artifact_digest_field (str digest) (digest_body d))))
          digest
        ≡ ok message

  signed_inj : {a b : Fields} → ◌≡◌ {A = Result Raised Fields} (ok a) (ok b) → a ≡ b
  signed_inj h = cc

  made_from :
      (sealed : Fields) (seed : List ℕ) (id time : String) (signed : Fields)
      → sign_sealed sealed seed id time ≡ ok signed
      → (m : String) × (signing_message
            (text_or "" (get "artifact_type" sealed))
            (text_or "" (get "schema_version" sealed))
            (str_of (get artifact_digest_field sealed))
          ≡ ok m)
        × (signed
            ≡ without (signature_field ∷ []) (
                put signature_object_field
                  (obj (signature_object id time (nacl.signs seed m)))
                  sealed))
  made_from sealed seed id time signed h =
      let kind = text_or "" (get "artifact_type" sealed) in
      let version = text_or "" (get "schema_version" sealed) in
      let (_, _, h₁) =
        bind_ok (raise_if (kind == "" || version == "") (integrity type_and_version_required)) _
          h in
      let (m, message, h₂) =
        bind_ok
          (composed (signing_message kind version (str_of (get artifact_digest_field sealed)))) _
          h₁ in
      let (bytes, by, h₃) = bind_ok (lift (sign_ed25519 m seed)) _ h₂ in
      let same = sign_ed25519_ok m seed bytes (lift_ok _ bytes by) in
      (
        m,
        composed_ok _ m message,
        sym (signed_inj h₃)
            ∙ ap
                (λ x.
                  without (signature_field ∷ [])
                    (put signature_object_field (obj (signature_object id time x)) sealed))
                same,
      )

  pub sign_artifact-IsSealed :
      (d : Fields) (seed : List ℕ) (id time : String) (signed : Fields)
      → sign_artifact true d seed id time ≡ ok signed
      → IsSealed d seed id time signed
  unfolding sign_artifact attach_artifact_digest str_of
  sign_artifact-IsSealed d seed id time signed h =
      let (sealed, attach, h₁) = bind_ok (attached (attach_artifact_digest true d)) _ h in
      let (digest, hashed_body, done) =
        digest_then_put (canonical_hash true (digest_body d)) artifact_digest_field (digest_body d)
          sealed (attached_ok _ sealed attach) in
      let body = put artifact_digest_field (str digest) (digest_body d) in
      let (m, message, made) =
        made_from body seed id time signed
          (subst (λ x. sign_sealed x seed id time ≡ ok signed) (sym done) h₁) in
      record {
        digest = digest;
        message = m;
        hashed_body = hashed_body;
        made = made;
        composed_from =
            sym (
              ap
                (λ v.
                  signing_message (text_or "" (get "artifact_type" body))
                    (text_or "" (get "schema_version" body)) (str_of v))
                (get-put_self artifact_digest_field (str digest) (digest_body d)))
            ∙ message;
      }

  -- What the verification reads in a sealed artifact.
  pub get-sealed :
      (k : String) (body : Fields) (digest : String) (sig : Fields)
      → elem k (signature_field ∷ []) ≡ false
      → (signature_object_field == k) ≡ false
      → get k (sealed_with body digest sig) ≡ get k (put artifact_digest_field (str digest) body)
  get-sealed k body digest sig h e =
      get-without (signature_field ∷ []) k _ h ∙ get-put signature_object_field k _ _ ∙ rw e refl

  pub no_legacy :
      (body : Fields) (digest : String) (sig : Fields)
      → lookup signature_field (sealed_with body digest sig) ≡ none
  no_legacy body digest sig = lookup-without (signature_field ∷ []) signature_field _ ∙ refl

  pub object-sealed :
      (body : Fields) (digest : String) (sig : Fields)
      → get signature_object_field (sealed_with body digest sig) ≡ obj sig
  object-sealed body digest sig =
      get-without (signature_field ∷ []) signature_object_field _ refl
      ∙ get-put_self signature_object_field (obj sig) _

  pub digest-sealed :
      (body : Fields) (digest : String) (sig : Fields)
      → get artifact_digest_field (sealed_with body digest sig) ≡ str digest
  digest-sealed body digest sig =
      get-sealed artifact_digest_field body digest sig refl refl
      ∙ get-put_self artifact_digest_field (str digest) body
